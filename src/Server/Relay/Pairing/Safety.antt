-- ===== src/Server/Relay/Pairing/Safety.antt =====
-- What holds of the relay after any sequence of events.
use oblireach.Base.{
  ℕ, ◌≡◌, refl, sym, ◌∙◌, ap, ◌≢◌, Option, none, some, List, [], ◌∷◌, arith, Bytes, load, ℤ,
}
use oblireach.Server.Sessions.{opposite, new_session_store}
use oblireach.Server.Sessions.Laws.{slot-new_entry, new_entry_pair_ch}
use oblireach.Server.Relay.{
  Phase, arrived, waiting, tunnelling, closed, stuck, Relay, init, new_conn,
}
use oblireach.Server.Relay.Steps.{
  receive, time_out, cancel, outbound, disconnect, inbound, receive_as, from_pair_ch, Event, joins,
  registers, receives, times_out, cancels, inbounds, outbounds, disconnects, step, run,
}
use oblireach.Server.Relay.Pairing.{
  partner_of, Inv, Quiet-Inv, leave_as-Quiet, outbound_as-Quiet, disconnect_as-Quiet,
  inbound_as-Quiet, tunnel-Quiet, pop-Inv, opposite-opposite,
}
use oblireach.Server.Relay.Pairing.Joining.{join-Inv, register_peer-Inv}

pub init-Inv : (max : ℤ) → Inv (init max)
unfolding init new_conn new_session_store
init-Inv max = record {
  registered = λ k e h. unfold load in absurd (cc);
  slots = λ e r c h. absurd (ground (arith, slot-new_entry [] 0 r));
  unregistered = λ c h. absurd (cc);
  first_slot = λ c h. absurd (cc);
  partners = λ c d h. absurd (cc);
  queued = λ e p rest h. absurd (ground (arith, new_entry_pair_ch [] 0));
  running = λ c h. cc;
}

receive_as-Inv :
    (c : ℕ) (p : Phase) (s : Relay) → (s.conns c).phase ≡ p → Inv s → Inv (receive_as c p s)
unfolding receive_as
receive_as-Inv c (waiting (some d)) s h v = Quiet-Inv (tunnel-Quiet c d s (ap partner_of h)) v
receive_as-Inv c (waiting none) s h v = pop_cases (s.entries (s.conns c).entry).pair_ch refl
  where
    pop_cases :
        (ch : List ℕ) → (s.entries (s.conns c).entry).pair_ch ≡ ch → Inv (from_pair_ch c ch s)
    pop_cases [] e = unfold from_pair_ch in v
    pop_cases (p ∷ rest) e = pop-Inv c p rest s v h e
receive_as-Inv c arrived s h v = v
receive_as-Inv c (tunnelling d) s h v = v
receive_as-Inv c closed s h v = v
receive_as-Inv c stuck s h v = v

module _ (message_type : Bytes → Option Bytes) where
  pub step-Inv : (s : Relay) (e : Event) → Inv s → Inv (step message_type s e)
  unfolding step receive time_out cancel outbound inbound disconnect
  step-Inv s (joins role token now) v = join-Inv role token now s v
  step-Inv s (registers c) v = register_peer-Inv c s v
  step-Inv s (receives c) v = receive_as-Inv c (s.conns c).phase s refl v
  step-Inv s (times_out c) v = Quiet-Inv (leave_as-Quiet c _ (s.conns c).phase s) v
  step-Inv s (cancels c) v = Quiet-Inv (leave_as-Quiet c _ (s.conns c).phase s) v
  step-Inv s (inbounds c is_text bytes) v =
      Quiet-Inv (inbound_as-Quiet message_type c is_text bytes (s.conns c).phase s) v
  step-Inv s (outbounds c) v = Quiet-Inv (outbound_as-Quiet c (s.conns c).phase s) v
  step-Inv s (disconnects c) v = Quiet-Inv (disconnect_as-Quiet c (s.conns c).phase s) v

  run_keeps-Inv : (s : Relay) (es : List Event) → Inv s → Inv (run message_type s es)
  unfolding run
  run_keeps-Inv s [] v = v
  run_keeps-Inv s (e ∷ es) v = run_keeps-Inv (step message_type s e) es (step-Inv s e v)

  -- The invariant holds after any sequence of events.
  pub run-Inv : (max : ℤ) (es : List Event) → Inv (run message_type (init max) es)
  run-Inv max es = run_keeps-Inv (init max) es (init-Inv max)

  -- Whatever the clients, timers and scheduler do, two connections are tunnelled together only if
  -- they gave the same session token, one as the viewer and the other as the agent; and the partner,
  -- once it tunnels too, tunnels to the first and to no other.
  pub tunnel_partner :
      (max : ℤ) (es : List Event) (c d : ℕ)
      → let s = run message_type (init max) es in
        (s.conns c).phase ≡ tunnelling d
        → ((s.conns d).token ≡ (s.conns c).token)
          × ((s.conns d).role ≡ opposite (s.conns c).role)
          × ((b : ℕ) → (s.conns d).phase ≡ tunnelling b → b ≡ c)
  tunnel_partner max es c d h =
      let s = run message_type (init max) es in
      let v : Inv s = run-Inv max es in
      let e = (s.conns c).entry in
      let (own, other) = v.partners c d (ap partner_of h) in
      let (_, _, _, _, mine, _) = v.slots e (s.conns c).role c own in
      let (_, _, r, i, theirs, _) = v.slots e (opposite (s.conns c).role) d other in
      (
        theirs ∙ sym mine,
        r,
        λ b g. ground (arith, v.partners d b, r, i, own, other, opposite-opposite (s.conns c).role),
      )

  -- A registration never waits on the entry's channel, which would keep the entry locked for ever.
  pub run-never_stuck :
      (max : ℤ) (es : List Event) (c : ℕ) → ((run message_type (init max) es).conns c).phase ≢ stuck
  run-never_stuck max es c = (run-Inv max es).running c
