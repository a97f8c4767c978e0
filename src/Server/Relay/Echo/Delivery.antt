-- ===== src/Server/Relay/Echo/Delivery.antt =====
-- The account of a tunnel's frames, at every step.
use oblireach.Base.{
  ℕ, ◌≡◌, refl, ap, inl, inr, Bool, Option, none, some, List, [], ◌∷◌, ◌++◌, arith, Bytes, ℤ,
}
use oblireach.Server.Sessions.{Role, opposite, get_or_create, remove}
use oblireach.Server.Sessions.Laws.{get_or_create_cases, register_cases}
use oblireach.Server.Relay.{
  Phase, arrived, waiting, tunnelling, closed, stuck, Outgoing, Conn, Relay, init, new_conn,
}
use oblireach.Server.Relay.Steps.{
  join, receive, time_out, cancel, outbound, disconnect, inbound, leave_as, receive_as,
  from_pair_ch, outbound_as, disconnect_as, inbound_as, set_conn, answer, register_as,
  register_peer, enter, enter_created, Event, joins, registers, receives, times_out, cancels,
  inbounds, outbounds, disconnects, step, run,
}
use oblireach.Server.Relay.Pairing.{partner_of, Inv, first_partner, slot-pair_ch}
use oblireach.Server.Relay.Pairing.Safety.{step-Inv, init-Inv}
use oblireach.Server.Relay.Pairing.Joining.{create-Inv}
use oblireach.Server.Relay.Echo.{
  Echo, relayed, before_tunnel, from_send_ch-Echo, disconnect-Echo, pong-Echo,
}
use oblireach.Server.Relay.Echo.Arrivals.{
  init-Echo, stop-Echo, registry-Echo, tunnel-Echo, pair_ch-Echo, add_conn-Echo, create-Echo,
  answer_free-Echo,
}

register_as-Echo :
    (c : ℕ) (p : Phase) (s : Relay)
    → (s.conns c).phase ≡ p
    → Inv s
    → Echo s
    → Echo (register_as c p s)
unfolding register_as
register_as-Echo c arrived s h v w =
    elim (register_cases (s.conns c).role c (s.entries (s.conns c).entry)) [
      | inl (q, _, refused) ↦ rw refused (unfold answer in stop-Echo c _ s (inl refl) refl w)
      | inr (free, n, mine, other, _) ↦ answer_free-Echo c s _ h n mine other free v w
    ]
register_as-Echo c (waiting p) s h v w = w
register_as-Echo c (tunnelling d) s h v w = w
register_as-Echo c closed s h v w = w
register_as-Echo c stuck s h v w = w

receive_as-Echo :
    (c : ℕ) (p : Phase) (s : Relay)
    → (s.conns c).phase ≡ p
    → Inv s
    → Echo s
    → Echo (receive_as c p s)
unfolding receive_as
receive_as-Echo c (waiting (some d)) s h v w =
    let (own, other) = v.partners c d (ap partner_of h) in
    tunnel-Echo c d (s.conns c).entry (s.conns c).role s own other (ap before_tunnel h) w
receive_as-Echo c (waiting none) s h v w = pop (s.entries (s.conns c).entry).pair_ch refl
  where
    pop : (ch : List ℕ) → (s.entries (s.conns c).entry).pair_ch ≡ ch → Echo (from_pair_ch c ch s)
    pop [] e = unfold from_pair_ch in w
    pop (p ∷ rest) e =
        unfold from_pair_ch in
        let emptied = pair_ch-Echo (s.conns c).entry rest s w in
        let (_, other) = first_partner c p rest s v h e in
        tunnel-Echo c p (s.conns c).entry (s.conns c).role _
          (ground (
            arith,
            v.first_slot c h,
            slot-pair_ch (s.conns c).role (s.entries (s.conns c).entry) rest,
          ))
          (ground (
            arith,
            other,
            slot-pair_ch (opposite (s.conns c).role) (s.entries (s.conns c).entry) rest,
          ))
          (ap before_tunnel h) emptied
receive_as-Echo c arrived s h v w = w
receive_as-Echo c (tunnelling d) s h v w = w
receive_as-Echo c closed s h v w = w
receive_as-Echo c stuck s h v w = w

leave_as-Echo :
    (c : ℕ) (last : List Outgoing) (p : Phase) (s : Relay) → Echo s → Echo (leave_as c last p s)
unfolding leave_as set_conn
leave_as-Echo c last (waiting p) s w =
    let left : Conn = record (s.conns c) { phase = closed; out = (s.conns c).out ++ last } in
    let stopped : Echo (set_conn c left s) = stop-Echo c left s (inl refl) refl w in
    registry-Echo (remove (s.conns c).token s.registry) (set_conn c left s) stopped
leave_as-Echo c last arrived s w = w
leave_as-Echo c last (tunnelling d) s w = w
leave_as-Echo c last closed s w = w
leave_as-Echo c last stuck s w = w

outbound_as-Echo :
    (c : ℕ) (p : Phase) (s : Relay)
    → (s.conns c).phase ≡ p
    → Inv s
    → Echo s
    → Echo (outbound_as c p s)
unfolding outbound_as
outbound_as-Echo c (tunnelling d) s h v w = from_send_ch-Echo c d s v h (s.conns d).send_ch refl w
outbound_as-Echo c (waiting p) s h v w = w
outbound_as-Echo c arrived s h v w = w
outbound_as-Echo c closed s h v w = w
outbound_as-Echo c stuck s h v w = w

disconnect_as-Echo :
    (c : ℕ) (p : Phase) (s : Relay)
    → (s.conns c).phase ≡ p
    → Inv s
    → Echo s
    → Echo (disconnect_as c p s)
disconnect_as-Echo c (tunnelling d) s h v w = disconnect-Echo c d s v h w
disconnect_as-Echo c (waiting p) s h v w = unfold disconnect_as in w
disconnect_as-Echo c arrived s h v w = unfold disconnect_as in w
disconnect_as-Echo c closed s h v w = unfold disconnect_as in w
disconnect_as-Echo c stuck s h v w = unfold disconnect_as in w

join-Echo :
    (role : Role) (token : Bytes) (now : ℕ) (s : Relay)
    → Inv s
    → Echo s
    → Echo (join role token now s)
unfolding join enter new_conn
join-Echo role token now s v w = elim (get_or_create_cases token s.next_entry s.registry) [
  | inl (e, found, ans) ↦ rw ans (add_conn-Echo _ s refl refl refl (inl refl) v w)
  | inr (inl (_, _, ans)) ↦ rw ans (add_conn-Echo _ s refl refl refl (inr refl) v w)
  | inr (inr (absent, room, ans, _, law)) ↦
      let found = get_or_create token s.next_entry s.registry in
      rw (enter_created role token now s.next_entry s found ans) (
        add_conn-Echo _ _ refl refl refl (inl refl) (create-Inv token now found.1 s law v)
          (create-Echo token now found.1 s w))
]

module _ (message_type : Bytes → Option Bytes) where
  inbound_as-Echo :
      (c : ℕ) (is_text : Bool) (bytes : Bytes) (p : Phase) (s : Relay)
      → (s.conns c).phase ≡ p
      → Inv s
      → Echo s
      → Echo (inbound_as message_type c is_text bytes p s)
  inbound_as-Echo c is_text bytes (tunnelling d) s h v w =
      pong-Echo c d s v h message_type is_text bytes w
  inbound_as-Echo c is_text bytes (waiting p) s h v w = unfold inbound_as in w
  inbound_as-Echo c is_text bytes arrived s h v w = unfold inbound_as in w
  inbound_as-Echo c is_text bytes closed s h v w = unfold inbound_as in w
  inbound_as-Echo c is_text bytes stuck s h v w = unfold inbound_as in w

  step-Echo : (s : Relay) (e : Event) → Inv s → Echo s → Echo (step message_type s e)
  unfolding step register_peer receive time_out cancel outbound inbound disconnect
  step-Echo s (joins role token now) v w = join-Echo role token now s v w
  step-Echo s (registers c) v w = register_as-Echo c (s.conns c).phase s refl v w
  step-Echo s (receives c) v w = receive_as-Echo c (s.conns c).phase s refl v w
  step-Echo s (times_out c) v w = leave_as-Echo c _ (s.conns c).phase s w
  step-Echo s (cancels c) v w = leave_as-Echo c _ (s.conns c).phase s w
  step-Echo s (inbounds c is_text bytes) v w =
      inbound_as-Echo c is_text bytes (s.conns c).phase s refl v w
  step-Echo s (outbounds c) v w = outbound_as-Echo c (s.conns c).phase s refl v w
  step-Echo s (disconnects c) v w = disconnect_as-Echo c (s.conns c).phase s refl v w

  run_keeps-Echo : (s : Relay) (es : List Event) → Inv s → Echo s → Echo (run message_type s es)
  unfolding run
  run_keeps-Echo s [] v w = w
  run_keeps-Echo s (e ∷ es) v w =
      run_keeps-Echo (step message_type s e) es (step-Inv message_type s e v) (step-Echo s e v w)

  -- A tunnel hands each peer its own frames. After any sequence of events, the frames that were
  -- written to a tunnelling connection, followed by those that wait in its partner's channel, are
  -- the frames that were read from that same connection and passed on, in order: none of them came
  -- from the partner.
  pub tunnel_echo :
      (max : ℤ) (es : List Event) (c d : ℕ)
      → let s = run message_type (init max) es in
        (s.conns c).phase ≡ tunnelling d
        → relayed (s.conns c).out ++ (s.conns d).send_ch ≡ (s.conns c).accepted
  tunnel_echo max es c d h =
      (run_keeps-Echo (init max) es (init-Inv max) (init-Echo max)).echo c d h
