-- ===== src/Agent/Commands/Effects.antt =====
-- The branches of handleCommand in agent/push.go: the refusals, and what is announced where.
use oblireach.Base.{
  ℕ, ◌≡◌, refl, true, false, List, [], ◌∷◌, ◌++◌, Bytes, codes, Table, is_empty, pos, negsuc,
}
use oblireach.Agent.Chats.{Json}
use oblireach.Agent.Commands.{
  Kind, payload_string, payload_int, Agent, World, notify, notify_target, begin_stream, open_tunnel,
  close_tunnel,
}

-- The fields that a command cannot do without.
unfoldable pub required : Kind → List Bytes
required Kind.open_remote_tunnel = codes "sessionToken" ∷ []
required Kind.close_remote_tunnel = codes "sessionToken" ∷ []
required Kind.update = codes "url" ∷ []
required Kind.open_chat = codes "chatId" ∷ []
required k = []

-- A connection that opens in a named session is announced there, and its end is announced in the
-- session that findCaptureSession picks, wherever the stream was.
pub close_announced_elsewhere :
    (payload : Table Json) (w : World) (a : Agent) (n : ℕ)
    → is_empty (payload_string payload (codes "sessionToken")) ≡ false
    → is_empty (payload_string payload (codes "username")) ≡ false
    → payload_int (negsuc 0) payload (codes "sessionId") ≡ pos n
    → ((open_tunnel payload w a).notices
        ≡ a.notices
          ++ (record {
            session = pos n;
            username = payload_string payload (codes "username");
            opens = true;
          }
              ∷ []))
      × ((close_tunnel payload w a).notices
          ≡ a.notices
            ++ (record {
              session = w.host.capture_session;
              username = payload_string payload (codes "username");
              opens = false;
            }
                ∷ []))
unfolding open_tunnel close_tunnel begin_stream notify notify_target
close_announced_elsewhere payload w a n t u e = (rw (t, u, e) refl, rw (t, u) refl)
