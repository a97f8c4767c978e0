-- ===== src/Server/Relay/Lifetime.antt =====
-- How long a session entry lives in the store of the relay.
use oblireach.Base.{
  ℕ, ◌<◌, ◌≡◌, refl, ap, ◌∙◌, ◌≢◌, ◌⊎◌, inl, inr, Option, none, some, List, arith, Bytes, length,
  load, load-delete, text_eq_refl, ℤ,
}
use oblireach.Server.Sessions.{
  Role, slot, remove, get_or_create, SessionEntry, Registration, taken, paired, first, blocked,
  register,
}
use oblireach.Server.Sessions.Laws.{get_or_create_cases, register_free}
use oblireach.Server.Relay.{arrived, waiting, tunnelling, closed, stuck, Relay, init, new_conn}
use oblireach.Server.Relay.Steps.{
  join, disconnect, disconnect_as, add_conn, start, admit, set_conn, answer, register_as,
  register_peer, enter, enter_created, Event, run,
}
use oblireach.Server.Relay.Pairing.{Inv}
use oblireach.Server.Relay.Pairing.Joining.{register_peer-Inv}
use oblireach.Server.Relay.Pairing.Safety.{run-Inv}

disconnect_removes :
    (c d : ℕ) (s : Relay)
    → (s.conns c).phase ≡ tunnelling d
    → load (s.conns c).token (disconnect c s).sessions ≡ none
unfolding disconnect disconnect_as remove
disconnect_removes c d s h = ground (
  arith,
  load-delete (s.conns c).token (s.conns c).token s.sessions,
  text_eq_refl (s.conns c).token,
)

disconnect_keeps :
    (c : ℕ) (s : Relay)
    → ((disconnect c s).next_entry ≡ s.next_entry) × ((disconnect c s).next_conn ≡ s.next_conn)
unfolding disconnect disconnect_as
disconnect_keeps c s = ground arith

-- A token that is not in the store gets an entry that no connection had before, or is turned away.
join_absent :
    (role : Role) (token : Bytes) (now n e : ℕ) (s : Relay)
    → load token s.sessions ≡ none
    → s.next_entry ≡ e
    → s.next_conn ≡ n
    → (((join role token now s).conns n).phase ≡ closed)
      ⊎ (((join role token now s).conns n).entry ≡ e)
unfolding join enter add_conn new_conn
join_absent role token now n e s h he hn =
    elim (get_or_create_cases token s.next_entry s.registry) [
      | inl (x, found, _) ↦ absurd (cc)
      | inr (inl (_, _, ans)) ↦ inl (rw ans (ground arith))
      | inr (inr (_, _, ans, _, _)) ↦
          let found = get_or_create token s.next_entry s.registry in
          inr (rw (enter_created role token now s.next_entry s found ans) (ground arith))
    ]

-- A peer whose tunnel ends removes whatever session its token names by then. If the other side has
-- come back in the meantime and waits in a new session of that token, it waits for nobody: a peer
-- that joins with the token afterwards is turned away or gets yet another session.
pub stale_disconnect :
    (message_type : Bytes → Option Bytes) (max : ℤ) (es : List Event) (c d w : ℕ) (role : Role)
    (now : ℕ)
    → let s = run message_type (init max) es in
      (s.conns c).phase ≡ tunnelling d
      → (s.conns w).phase ≡ waiting none
      → (s.conns w).token ≡ (s.conns c).token
      → let t = join role (s.conns w).token now (disconnect c s) in
        ((t.conns s.next_conn).phase ≡ closed) ⊎ ((t.conns s.next_conn).entry ≢ (s.conns w).entry)
stale_disconnect message_type max es c d w role now h k same =
    let s = run message_type (init max) es in
    let v : Inv s = run-Inv message_type max es in
    let gone = rw (← same) at (disconnect_removes c d s h) in
    let (e, n) = disconnect_keeps c s in
    let old = (v.slots (s.conns w).entry (s.conns w).role w (v.first_slot w k)).0 in
    elim (join_absent role (s.conns w).token now s.next_conn s.next_entry _ gone e n) [
      | inl over ↦ inl over
      | inr fresh ↦ inr (λ meets. omega (arith, fresh, meets))
    ]

answer_short :
    (c : ℕ) (s : Relay) (r : Registration × SessionEntry)
    → r.0 ≢ taken
    → length (s.conns c).token < 8
    → (((answer c r s).conns c).phase ≡ stuck)
      ⊎ ((((answer c r s).conns c).phase ≡ closed)
          × (((answer c r s).conns c).out ≡ (s.conns c).out)
          × ((answer c r s).entries (s.conns c).entry ≡ r.1)
          × ((answer c r s).registry ≡ s.registry))
unfolding answer admit start set_conn
answer_short c s (taken, new) n short = absurd (n refl)
answer_short c s (paired d, new) n short = ground arith
answer_short c s (first, new) n short = ground arith
answer_short c s (blocked, new) n short = ground arith

register_arrived :
    (c : ℕ) (s : Relay)
    → (s.conns c).phase ≡ arrived
    → register_peer c s ≡ answer c (register (s.conns c).role c (s.entries (s.conns c).entry)) s
unfolding register_peer
register_arrived c s h = rw (h, register_as)

-- A peer with a session token of less than eight bytes is cut off without a word as soon as it has
-- registered, and its role stays taken in a session that stays in the store.
pub short_token :
    (message_type : Bytes → Option Bytes) (max : ℤ) (es : List Event) (c : ℕ)
    → let s = run message_type (init max) es in
      (s.conns c).phase ≡ arrived
      → slot (s.conns c).role (s.entries (s.conns c).entry) ≡ none
      → length (s.conns c).token < 8
      → let t = register_peer c s in
        ((t.conns c).phase ≡ closed)
        × ((t.conns c).out ≡ (s.conns c).out)
        × (slot (s.conns c).role (t.entries (s.conns c).entry) ≡ some c)
        × (t.registry ≡ s.registry)
short_token message_type max es c h free short =
    let s = run message_type (init max) es in
    let e = s.entries (s.conns c).entry in
    let (n, mine, _, _) = register_free (s.conns c).role c e free in
    let alive = (register_peer-Inv c s (run-Inv message_type max es)).running c in
    let answered = register_arrived c s h in
    elim (answer_short c s (register (s.conns c).role c e) n short) [
      | inl locked ↦ absurd (alive (ap (λ (t : Relay). (t.conns c).phase) answered ∙ locked))
      | inr (over, silent, kept, store) ↦
          rw answered (over, silent, ap (slot (s.conns c).role) kept ∙ mine, store)
    ]
