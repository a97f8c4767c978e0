-- ===== src/Server/Relay/Limits.antt =====
-- The length of the peers' channels and the number of sessions of the relay.
use oblireach.Base.{
  ℕ, zero, suc, pos, negsuc, ◌≤◌, ◌≡◌, refl, ◌∙◌, ◌⊎◌, inl, inr, Option, List, [], ◌∷◌, arith,
  Bytes, length, length-append, length-delete-le, ℤ,
}
use oblireach.Server.Sessions.{Role, SessionStore, new_session_store, count, remove, get_or_create}
use oblireach.Server.Sessions.Laws.{
  Within, Within-mono, get_or_create-Within, max-get_or_create, get_or_create_cases,
}
use oblireach.Server.Relay.{
  Outgoing, Phase, waiting, tunnelling, Relay, init, new_conn, send_cap, peer_disconnected,
}
use oblireach.Server.Relay.Steps.{
  join, receive, time_out, cancel, outbound, disconnect, inbound, leave_as, disconnect_as, add_conn,
  register_peer, enter, enter_created, Event, joins, registers, receives, times_out, cancels,
  inbounds, outbounds, disconnects, step, run,
}

module _ (message_type : Bytes → Option Bytes) (s : Relay) (c : ℕ)
    (h : length (s.conns c).send_ch ≤ send_cap) where
  -- Each channel holds what it held or one frame more, and no more than its capacity.
  step_channel : (e : Event) → length ((step message_type s e).conns c).send_ch ≤ send_cap
  unfolding step join new_conn register_peer receive time_out cancel outbound inbound disconnect
  step_channel (joins role token now) = ground (arith, get_or_create token s.next_entry s.registry)
  step_channel (registers i) = ground arith
  step_channel (receives i) = ground arith
  step_channel (times_out i) = ground arith
  step_channel (cancels i) = ground arith
  step_channel (inbounds i is_text bytes) =
      ground (arith, length-append (s.conns c).send_ch (bytes ∷ []))
  step_channel (outbounds i) = ground arith
  step_channel (disconnects i) =
      ground (arith, length-append (s.conns c).send_ch (peer_disconnected ∷ []))

-- What a step does to the store: nothing, a removal, or a getOrCreate.
abbrev StoreMove : SessionStore → SessionStore → Type 0
StoreMove a b =
    (b ≡ a)
    ⊎ ((t : Bytes) × (b ≡ remove t a))
    ⊎ ((t : Bytes) × (fresh : ℕ) × (b ≡ (get_or_create t fresh a).1))

StoreMove-Within :
    (max : ℤ) (a b : SessionStore)
    → StoreMove a b
    → (a.max ≡ max) × Within max (count a)
    → (b.max ≡ max) × Within max (count b)
unfolding remove count
StoreMove-Within max a b (inl e) w = rw e w
StoreMove-Within max a b (inr (inl (t, e))) w =
    rw e (w.0, Within-mono max _ _ (length-delete-le t a.sessions) w.1)
StoreMove-Within max a b (inr (inr (t, fresh, e))) w =
    let kept = max-get_or_create t fresh a ∙ w.0 in
    let room = rw (← w.0) at w.1 in rw e (kept, rw kept at (get_or_create-Within t fresh a room))

Within-zero : (max : ℤ) → Within max 0
Within-zero (pos zero) = tt
Within-zero (pos (suc m)) = omega arith
Within-zero (negsuc m) = tt

leave_as-StoreMove :
    (c : ℕ) (last : List Outgoing) (p : Phase) (s : Relay)
    → StoreMove s.registry (leave_as c last p s).registry
unfolding leave_as
leave_as-StoreMove c last (waiting w) s = inr (inl ((s.conns c).token, refl))
leave_as-StoreMove c last p s = inl refl

disconnect_as-StoreMove :
    (c : ℕ) (p : Phase) (s : Relay) → StoreMove s.registry (disconnect_as c p s).registry
unfolding disconnect_as
disconnect_as-StoreMove c (tunnelling d) s = inr (inl ((s.conns c).token, refl))
disconnect_as-StoreMove c p s = inl refl

join-StoreMove :
    (role : Role) (token : Bytes) (now : ℕ) (s : Relay)
    → StoreMove s.registry (join role token now s).registry
unfolding join enter add_conn
join-StoreMove role token now s = elim (get_or_create_cases token s.next_entry s.registry) [
  | inl (e, _, ans) ↦ inl (rw ans)
  | inr (inl (_, _, ans)) ↦ inl (rw ans)
  | inr (inr (_, _, ans, _, _)) ↦
      let found = get_or_create token s.next_entry s.registry in
      inr (inr (token, s.next_entry, rw (enter_created role token now s.next_entry s found ans)))
]

module _ (message_type : Bytes → Option Bytes) where
  step-StoreMove : (s : Relay) (e : Event) → StoreMove s.registry (step message_type s e).registry
  unfolding step register_peer receive time_out cancel outbound inbound disconnect
  step-StoreMove s (joins role token now) = join-StoreMove role token now s
  step-StoreMove s (registers i) = inl (ground arith)
  step-StoreMove s (receives i) = inl (ground arith)
  step-StoreMove s (times_out i) = leave_as-StoreMove i _ (s.conns i).phase s
  step-StoreMove s (cancels i) = leave_as-StoreMove i _ (s.conns i).phase s
  step-StoreMove s (inbounds i is_text bytes) = inl (ground arith)
  step-StoreMove s (outbounds i) = inl (ground arith)
  step-StoreMove s (disconnects i) = disconnect_as-StoreMove i (s.conns i).phase s

  run_bounds :
      (max : ℤ) (s : Relay) (es : List Event)
      → (s.max ≡ max) × Within max (count s.registry)
      → ((c : ℕ) → length (s.conns c).send_ch ≤ send_cap)
      → Within max (count (run message_type s es).registry)
        × ((c : ℕ) → length ((run message_type s es).conns c).send_ch ≤ send_cap)
  unfolding run
  run_bounds max s [] w b = (w.1, b)
  run_bounds max s (e ∷ es) w b =
      run_bounds max (step message_type s e) es
        (StoreMove-Within max s.registry _ (step-StoreMove s e) w)
        (λ c. step_channel message_type s c (b c) e)

  -- The store never holds more sessions than its limit, if it has one, and no peer's channel more
  -- frames than its capacity, whatever happens.
  pub run-limits :
      (max : ℤ) (es : List Event)
      → let s = run message_type (init max) es in
        Within max (count s.registry) × ((c : ℕ) → length (s.conns c).send_ch ≤ send_cap)
  unfolding init new_conn new_session_store count
  run-limits max es = run_bounds max (init max) es (refl, Within-zero max) (λ c. omega arith)
