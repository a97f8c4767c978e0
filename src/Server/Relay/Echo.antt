-- ===== src/Server/Relay/Echo.antt =====
-- Where the frames of a tunnel go. Both pumps of a connection work on the channel of its partner:
-- the inbound pump fills `partner.sendCh` and the outbound pump drains the same channel into the
-- connection that the frames came from.
pub mod Arrivals
pub mod Delivery
use oblireach.Base.{
  ℕ, suc, ◌+◌, ◌<◌, ◌≡◌, refl, sym, ap, ◌∙◌, ◌≢◌, ◌⊎◌, inl, inr, Bool, true, false, Option, none,
  some, List, [], ◌∷◌, ◌++◌, arith, Bytes, length, ltb, ◌==◌, if◌then◌else◌, ℤ, update,
  Option-cases, Bool-cases,
}
use mathlib.Core.List.{append_assoc, append-nil}
use oblireach.Server.Sessions.{Role, viewer, agent, opposite, slot, new_session_store, new_entry}
use oblireach.Server.Sessions.Laws.{slot-new_entry}
use oblireach.Server.Relay.{
  Phase, arrived, waiting, tunnelling, closed, stuck, Outgoing, control, frame, Conn, Relay, init,
  new_conn, pong,
}
use oblireach.Server.Relay.Steps.{
  join, receive, time_out, cancel, outbound, disconnect, inbound, leave_as, receive_as,
  from_pair_ch, tunnel, outbound_as, from_send_ch, disconnect_as, inbound_as, pass_on, offer,
  is_text_frame, is_ping, Event, joins, registers, receives, times_out, cancels, inbounds,
  outbounds, disconnects, step, run,
}
use oblireach.Server.Relay.Pairing.{partner_of, Inv, Role-cases, opposite-opposite, first_partner}

-- The relayed frames among what was written to a connection.
abbrev pub relayed : List Outgoing → List Bytes
relayed [] = []
relayed (control m ∷ os) = relayed os
relayed (frame t b ∷ os) = b ∷ relayed os

relayed-append : (os ps : List Outgoing) → relayed (os ++ ps) ≡ relayed os ++ relayed ps
relayed-append [] ps = refl
relayed-append (control m ∷ os) ps = relayed-append os ps
relayed-append (frame t b ∷ os) ps = ap (◌∷◌ b) (relayed-append os ps)

abbrev before_tunnel : Phase → Bool
before_tunnel arrived = true
before_tunnel (waiting w) = true
before_tunnel (tunnelling d) = false
before_tunnel closed = false
before_tunnel stuck = false

record Echo (s : Relay) : Type 0 where
  unused :
      (c : ℕ)
      → before_tunnel (s.conns c).phase ≡ true
      → (relayed (s.conns c).out ≡ []) × ((s.conns c).accepted ≡ [])
  unregistered : (c : ℕ) → (s.conns c).phase ≡ arrived → (s.conns c).send_ch ≡ []
  lone :
      (e : ℕ) (r : Role) (c : ℕ)
      → slot r (s.entries e) ≡ some c
      → slot (opposite r) (s.entries e) ≡ none
      → (s.conns c).send_ch ≡ []
  pairs :
      (e : ℕ) (r : Role) (c d : ℕ)
      → slot r (s.entries e) ≡ some c
      → slot (opposite r) (s.entries e) ≡ some d
      → before_tunnel (s.conns c).phase ≡ true
      → (s.conns d).send_ch ≡ []
  echo :
      (c d : ℕ)
      → (s.conns c).phase ≡ tunnelling d
      → relayed (s.conns c).out ++ (s.conns d).send_ch ≡ (s.conns c).accepted

Role-ne : (r : Role) → r ≢ opposite r
Role-ne viewer e = cc
Role-ne agent e = cc

module _ (c d : ℕ) (s : Relay) (v : Inv s) (h : (s.conns c).phase ≡ tunnelling d) where
  -- Nobody else has the partner of a tunnelling connection for a partner, and it is not alone.
  only_partner :
      (e : ℕ) (r : Role) (b : ℕ)
      → slot r (s.entries e) ≡ some b
      → slot (opposite r) (s.entries e) ≡ some d
      → b ≡ c
  only_partner e r b hb hd =
      let (own, other) = v.partners c d (ap partner_of h) in
      ground (
        arith,
        own,
        other,
        v.slots e (opposite r) d hd,
        v.slots (s.conns c).entry (opposite (s.conns c).role) d other,
        Role-cases r (s.conns c).role,
        opposite-opposite r,
        opposite-opposite (s.conns c).role,
      )

  not_alone :
      (e : ℕ) (r : Role) → slot r (s.entries e) ≡ some d → slot (opposite r) (s.entries e) ≢ none
  not_alone e r hd =
      let (own, other) = v.partners c d (ap partner_of h) in
      ground (
        arith,
        own,
        other,
        v.slots e r d hd,
        v.slots (s.conns c).entry (opposite (s.conns c).role) d other,
        opposite-opposite (s.conns c).role,
      )

  partner_registered : (s.conns d).phase ≢ arrived
  partner_registered a =
      let (_, other) = v.partners c d (ap partner_of h) in
      ground (arith, v.slots (s.conns c).entry (opposite (s.conns c).role) d other)

  other_conn : d ≢ c
  other_conn same =
      let (own, other) = v.partners c d (ap partner_of h) in
      ground (
        arith,
        own,
        v.slots (s.conns c).entry (opposite (s.conns c).role) d other,
        Role-ne (s.conns c).role,
      )

  other_ne : (b : ℕ) → (s.conns b).phase ≡ tunnelling d → b ≡ c
  other_ne b g =
      let (own, other) = v.partners b d (ap partner_of g) in
      only_partner (s.conns b).entry (s.conns b).role b own other

  pass_on-Echo : (bytes : Bytes) → Echo s → Echo (pass_on c d bytes s)
  unfolding pass_on
  pass_on-Echo bytes w = record {
    unused = λ i. ground (arith, w.unused i, h);
    unregistered = λ i. ground (arith, w.unregistered i, partner_registered, h);
    lone = λ e r i q k. ground (arith, w.lone e r i, not_alone e r);
    pairs = λ e r i j q k b. ground (arith, w.pairs e r i j, only_partner e r i, h);
    echo = λ i j g. ground (
      arith,
      w.echo i j,
      other_ne i,
      other_conn,
      h,
      append_assoc (relayed (s.conns c).out) (s.conns d).send_ch (bytes ∷ []),
    );
  }

  from_send_ch-Echo :
      (queue : List Bytes) → (s.conns d).send_ch ≡ queue → Echo s → Echo (from_send_ch c d queue s)
  unfolding from_send_ch
  from_send_ch-Echo [] e w = w
  from_send_ch-Echo (b ∷ rest) e w = record {
    unused = λ i. ground (arith, w.unused i, h);
    unregistered = λ i. ground (arith, w.unregistered i, partner_registered, h);
    lone = λ x r i q k. ground (arith, w.lone x r i, not_alone x r);
    pairs = λ x r i j q k g. ground (arith, w.pairs x r i j, only_partner x r i, h);
    echo = λ i j g. ground (
      arith,
      w.echo i j,
      other_ne i,
      other_conn,
      h,
      e,
      relayed-append (s.conns c).out (frame (is_text_frame b) b ∷ []),
      append_assoc (relayed (s.conns c).out) (b ∷ []) rest,
    );
  }

  disconnect-Echo : Echo s → Echo (disconnect_as c (tunnelling d) s)
  unfolding disconnect_as
  disconnect-Echo w = record {
    unused = λ i. ground (arith, w.unused i, h);
    unregistered = λ i. ground (arith, w.unregistered i, partner_registered, h);
    lone = λ x r i q k. ground (arith, w.lone x r i, not_alone x r);
    pairs = λ x r i j q k g. ground (arith, w.pairs x r i j, only_partner x r i, h);
    echo = λ i j g. ground (arith, w.echo i j, other_ne i, other_conn, h);
  }

  pong-Echo :
      (message_type : Bytes → Option Bytes) (is_text : Bool) (bytes : Bytes)
      → Echo s
      → Echo (inbound_as message_type c is_text bytes (tunnelling d) s)
  unfolding inbound_as
  pong-Echo message_type is_text bytes w = elim (Bool-cases (is_ping message_type is_text bytes)) [
    | inr other ↦ rw other (pass_on-Echo bytes w)
    | inl ping ↦ rw ping (record {
      unused = λ i. ground (arith, w.unused i, h);
      unregistered = λ i. ground (arith, w.unregistered i, h);
      lone = λ x r i q k. ground (arith, w.lone x r i);
      pairs = λ x r i j q k g. ground (arith, w.pairs x r i j, h);
      echo = λ i j g. ground (
        arith,
        w.echo i j,
        h,
        relayed-append (s.conns c).out (pong ∷ []),
        append-nil (relayed (s.conns c).out),
      );
    })
  ]
