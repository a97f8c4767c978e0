-- ===== src/Server/Relay/Steps.antt =====
-- The steps of the connections of server/relay.go: joining a session, registering, waiting, the two
-- pumps and the disconnect, and the events that choose them.
use oblireach.Base.{
  ℕ, suc, Bool, false, ◌&&◌, Option, none, some, List, [], ◌∷◌, ◌++◌, Bytes, codes, length, text_eq,
  ltb, ◌==◌, if◌then◌else◌, update, ◌≡◌, arith,
}
use oblireach.Server.Sessions.{
  Role, SessionEntry, SessionStore, new_entry, Found, existing, created, full, get_or_create,
  remove, Registration, taken, paired, first, blocked, register,
}
use oblireach.Server.Relay.{
  Conn, Outgoing, Phase, Relay, arrived, closed, error, frame, new_conn, paired_msg,
  peer_disconnected, pong, send_cap, stuck, tunnelling, waiting, waiting_msg,
}

unfoldable pub add_conn : Conn → Relay → Relay
add_conn k s = record s { conns = update s.conns s.next_conn k; next_conn = suc s.next_conn }

unfoldable pub enter : Role → Bytes → ℕ → Found × SessionStore → Relay → Relay
unfolding add_conn new_conn
enter role token now (full, registry) s =
    add_conn (new_conn role token 0 closed (error (codes "server full") ∷ [])) s
enter role token now (existing e, registry) s = add_conn (new_conn role token e arrived []) s
enter role token now (created e, registry) s =
    add_conn (new_conn role token e arrived []) (record s {
      registry = registry;
      entries = update s.entries e (new_entry token now);
      next_entry = suc s.next_entry;
    })

pub enter_created :
    (role : Role) (token : Bytes) (now e : ℕ) (s : Relay) (r : Found × SessionStore)
    → r.0 ≡ created e
    → enter role token now r s
      ≡ add_conn (new_conn role token e arrived []) (record s {
        registry = r.1;
        entries = update s.entries e (new_entry token now);
        next_entry = suc s.next_entry;
      })
unfolding enter
enter_created role token now e s r h = ground arith

-- The upgraded connection gets its session entry. The store's lock is released before the entry's
-- is taken, so other steps may come between this one and `register_peer`.
unfoldable pub join : Role → Bytes → ℕ → Relay → Relay
unfolding enter
join role token now s = enter role token now (get_or_create token s.next_entry s.registry) s

-- `pairingToken[:8]` in the log line panics on a shorter token: the deferred Close runs, and nothing
-- takes the peer out of the entry or the entry out of the store.
unfoldable pub start : Conn → Option ℕ → Conn
start k partner =
    if ltb (length k.token) 8
    then record k { phase = closed }
    else record k { phase = waiting partner; out = k.out ++ (waiting_msg ∷ []) }

unfoldable pub admit : ℕ → Option ℕ → SessionEntry → Relay → Relay
unfolding start
admit c partner entry s = record s {
  entries = update s.entries (s.conns c).entry entry;
  conns = update s.conns c (start (s.conns c) partner);
}

unfoldable pub set_conn : ℕ → Conn → Relay → Relay
set_conn c k s = record s { conns = update s.conns c k }

unfoldable pub answer : ℕ → Registration × SessionEntry → Relay → Relay
unfolding admit set_conn
answer c (taken, entry) s =
    set_conn c
      (record (s.conns c) {
        phase = closed;
        out = (s.conns c).out ++ (error (codes "role already taken for this session") ∷ []);
      })
      s
answer c (paired d, entry) s = admit c (some d) entry s
answer c (first, entry) s = admit c none entry s
answer c (blocked, entry) s = set_conn c (record (s.conns c) { phase = stuck }) s

unfoldable pub register_as : ℕ → Phase → Relay → Relay
unfolding answer
register_as c arrived s = answer c (register (s.conns c).role c (s.entries (s.conns c).entry)) s
register_as c _ s = s

-- `entry.register(p)`, and what is told of its answer.
unfoldable pub register_peer : ℕ → Relay → Relay
unfolding register_as
register_peer c s = register_as c (s.conns c).phase s

unfoldable pub tunnel : ℕ → ℕ → Relay → Relay
tunnel c d s = record s {
  conns =
      update s.conns c
        (record (s.conns c) { phase = tunnelling d; out = (s.conns c).out ++ (paired_msg ∷ []) });
}

unfoldable pub from_pair_ch : ℕ → List ℕ → Relay → Relay
unfolding tunnel
from_pair_ch c [] s = s
from_pair_ch c (p ∷ rest) s = tunnel c p (record s {
  entries =
      update s.entries (s.conns c).entry (record (s.entries (s.conns c).entry) { pair_ch = rest });
})

-- `partner = <-partnerCh`
unfoldable pub receive_as : ℕ → Phase → Relay → Relay
unfolding from_pair_ch
receive_as c (waiting (some d)) s = tunnel c d s
receive_as c (waiting none) s = from_pair_ch c (s.entries (s.conns c).entry).pair_ch s
receive_as c _ s = s

unfoldable pub receive : ℕ → Relay → Relay
unfolding receive_as
receive c s = receive_as c (s.conns c).phase s

-- `<-timer.C` and `<-r.Context().Done()`: the session is removed; the timeout is also told.
unfoldable pub leave_as : ℕ → List Outgoing → Phase → Relay → Relay
leave_as c last (waiting _) s = record s {
  registry = remove (s.conns c).token s.registry;
  conns = update s.conns c (record (s.conns c) { phase = closed; out = (s.conns c).out ++ last });
}
leave_as c last _ s = s

unfoldable pub time_out : ℕ → Relay → Relay
unfolding leave_as
time_out c s = leave_as c (error (codes "timed out waiting for peer") ∷ []) (s.conns c).phase s

unfoldable pub cancel : ℕ → Relay → Relay
unfolding leave_as
cancel c s = leave_as c [] (s.conns c).phase s

-- A send with a default branch: a full channel drops the value.
unfoldable pub offer : Bytes → List Bytes → List Bytes
offer bytes queue = if ltb (length queue) send_cap then queue ++ (bytes ∷ []) else queue

-- `partner.sendCh <- data`
unfoldable pub pass_on : ℕ → ℕ → Bytes → Relay → Relay
pass_on c d bytes s =
    if ltb (length (s.conns d).send_ch) send_cap
    then record s {
      conns =
          update
            (update s.conns d
              (record (s.conns d) { send_ch = (s.conns d).send_ch ++ (bytes ∷ []) }))
            c (record (s.conns c) { accepted = (s.conns c).accepted ++ (bytes ∷ []) });
    }
    else s

-- A text frame starts with a brace.
unfoldable pub is_text_frame : Bytes → Bool
is_text_frame [] = false
is_text_frame (b ∷ bs) = b == b'{'

unfoldable pub from_send_ch : ℕ → ℕ → List Bytes → Relay → Relay
unfolding is_text_frame
from_send_ch c d [] s = s
from_send_ch c d (bytes ∷ rest) s = record s {
  conns =
      update (update s.conns d (record (s.conns d) { send_ch = rest })) c
        (record (s.conns c) { out = (s.conns c).out ++ (frame (is_text_frame bytes) bytes ∷ []) });
}

-- The outbound pump: `frame := <-partner.sendCh`, and a write to our own connection.
unfoldable pub outbound_as : ℕ → Phase → Relay → Relay
unfolding from_send_ch
outbound_as c (tunnelling d) s = from_send_ch c d (s.conns d).send_ch s
outbound_as c _ s = s

unfoldable pub outbound : ℕ → Relay → Relay
unfolding outbound_as
outbound c s = outbound_as c (s.conns c).phase s

-- The reader's deferred function.
unfoldable pub disconnect_as : ℕ → Phase → Relay → Relay
unfolding offer
disconnect_as c (tunnelling d) s = record s {
  registry = remove (s.conns c).token s.registry;
  conns =
      update
        (update s.conns d
          (record (s.conns d) { send_ch = offer peer_disconnected (s.conns d).send_ch }))
        c (record (s.conns c) { phase = closed });
}
disconnect_as c _ s = s

unfoldable pub disconnect : ℕ → Relay → Relay
unfolding disconnect_as
disconnect c s = disconnect_as c (s.conns c).phase s

pub data Event : Type 0 where
  joins : Role → Bytes → ℕ → Event
  registers receives times_out cancels outbounds disconnects : ℕ → Event
  inbounds : ℕ → Bool → Bytes → Event

module _ (message_type : Bytes → Option Bytes) where
  unfoldable pub is_ping : Bool → Bytes → Bool
  is_ping is_text bytes = elim (message_type bytes) [
    | none ↦ false
    | some type ↦ is_text && text_eq type (codes "ping")
  ]

  unfoldable pub inbound_as : ℕ → Bool → Bytes → Phase → Relay → Relay
  unfolding pass_on is_ping
  inbound_as c is_text bytes (tunnelling d) s =
      if is_ping is_text bytes
      then record s {
        conns = update s.conns c (record (s.conns c) { out = (s.conns c).out ++ (pong ∷ []) });
      }
      else pass_on c d bytes s
  inbound_as c is_text bytes _ s = s

  -- The inbound pump: a ping is answered, any other frame goes to the channel of the partner.
  unfoldable pub inbound : ℕ → Bool → Bytes → Relay → Relay
  unfolding inbound_as
  inbound c is_text bytes s = inbound_as c is_text bytes (s.conns c).phase s

  unfoldable pub step : Relay → Event → Relay
  step s (joins role token now) = join role token now s
  step s (registers c) = register_peer c s
  step s (receives c) = receive c s
  step s (times_out c) = time_out c s
  step s (cancels c) = cancel c s
  step s (inbounds c is_text bytes) = inbound c is_text bytes s
  step s (outbounds c) = outbound c s
  step s (disconnects c) = disconnect c s

  unfoldable pub run : Relay → List Event → Relay
  run s [] = s
  run s (e ∷ es) = run (step s e) es
