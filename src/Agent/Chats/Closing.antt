-- ===== src/Agent/Chats/Closing.antt =====
-- How a chat of agent/chat.go ends: stopChat, ChatSession.stop and the end of relayFromHelper.
use oblireach.Base.{
  ℕ, ◌≡◌, ◌≢◌, refl, ap, ◌∙◌, true, Option, none, some, [], ◌∷◌, ◌++◌, Bytes, Table, load, ◌==◌,
  text_eq_iff, text_eq_refl, load-delete, update_self, arith,
}
use oblireach.Agent.Chats.{
  Json, Conn, stop_helper, user_closed, Chats, is_open, close_conn, stop, stop_body, send_to,
  stop_entry, stop_chat,
}
use oblireach.Agent.Chats.Events.{
  finish_reading, tell_server, read_failed, close_chat, pipe_failed, step, run,
}
use oblireach.Agent.Chats.Invariant.{Inv}

-- What closing an active chat with a connected helper leaves.
pub record Closed (id : Bytes) (n : ℕ) (s t : Chats) : Type 0 where
  pub inactive : load id t.active ≡ none
  pub others_kept : (j : Bytes) → j ≢ id → load j t.active ≡ load j s.active
  pub stopped : (t.chats n).stopped ≡ true
  pub conn_closed : (t.chats n).conn ≡ Conn.closed
  pub told : t.sent ≡ s.sent ++ ((n, id, stop_helper) ∷ [])
  pub server_not_told : t.to_server ≡ s.to_server

-- close_chat on an active chat whose helper is connected: the helper is told to stop, the connection
-- is closed, and only this chat leaves the active ones.
pub close_chat-Closed :
    (decode : Bytes → Option (Table Json)) (id : Bytes) (n : ℕ) (s : Chats)
    → Inv s
    → load id s.active ≡ some n
    → (s.chats n).conn ≡ Conn.connected
    → Closed id n s (step decode (close_chat true id) s)
unfolding step stop_chat stop_entry stop stop_body send_to is_open close_conn
close_chat-Closed decode id n s i e c =
    rw (e, c, i.active_running id n e, i.active_id id n e, c)
      (record {
        inactive = load-delete id id s.active ∙ rw (text_eq_refl id) refl;
        others_kept = λ j h. ground (arith, load-delete id j s.active, text_eq_iff id j);
        stopped = ap (λ x. x.stopped) (update_self s.chats n _);
        conn_closed = ap (λ x. x.conn) (update_self s.chats n _);
        told = refl;
        server_not_told = refl;
      })

-- When the operator closes a chat, the reader of its pipe fails on the closed connection, and the
-- server is told that the user closed it.
pub close_chat_reported :
    (decode : Bytes → Option (Table Json)) (id : Bytes) (n : ℕ) (s : Chats)
    → Inv s
    → load id s.active ≡ some n
    → (s.chats n).conn ≡ Conn.connected
    → (s.chats n).reading ≡ true
    → (run decode (close_chat true id ∷ pipe_failed n ∷ []) s).to_server
      ≡ s.to_server ++ (user_closed id ∷ [])
unfolding run step stop_chat stop_entry stop stop_body send_to is_open read_failed finish_reading
    tell_server
close_chat_reported decode id n s i e c r =
    let same : (n == n) ≡ true = ground arith in
    rw (e, c, i.active_running id n e, i.active_id id n e, same, r) refl
