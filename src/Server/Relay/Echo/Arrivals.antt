-- ===== src/Server/Relay/Echo/Arrivals.antt =====
-- The account of a tunnel's frames, at the steps that come before the tunnel.
use oblireach.Base.{
  ℕ, suc, ◌≡◌, refl, ◌≢◌, ◌⊎◌, inr, true, Option, none, some, List, [], ◌∷◌, arith, Bytes, ℤ,
  update,
}
use mathlib.Core.List.{append-nil}
use oblireach.Server.Sessions.{
  Role, opposite, slot, SessionEntry, SessionStore, Registration, taken, paired, first, blocked,
  new_entry,
}
use oblireach.Server.Sessions.Laws.{slot-new_entry}
use oblireach.Server.Relay.{
  arrived, waiting, closed, stuck, Conn, Relay, init, new_conn, paired_msg, waiting_msg,
}
use oblireach.Server.Relay.Steps.{tunnel, add_conn, start, admit, set_conn, answer}
use oblireach.Server.Relay.Pairing.{Inv, Role-cases, opposite-opposite, slot-pair_ch}
use oblireach.Server.Relay.Echo.{Echo, relayed, relayed-append, before_tunnel}

pub init-Echo : (max : ℤ) → Echo (init max)
unfolding init new_conn
init-Echo max = record {
  unused = λ c h. (refl, refl);
  unregistered = λ c h. refl;
  lone = λ e r c h k. refl;
  pairs = λ e r c d h k g. refl;
  echo = λ c d h. absurd (cc);
}

-- A connection that leaves, or is turned away, before its tunnel.
pub stop-Echo :
    (c : ℕ) (k : Conn) (s : Relay)
    → (k.phase ≡ closed) ⊎ (k.phase ≡ stuck)
    → k.send_ch ≡ (s.conns c).send_ch
    → Echo s
    → Echo (set_conn c k s)
unfolding set_conn
stop-Echo c k s h e w = record {
  unused = λ i. ground (arith, w.unused i);
  unregistered = λ i. ground (arith, w.unregistered i);
  lone = λ x r i q p. ground (arith, w.lone x r i);
  pairs = λ x r i j q p g. ground (arith, w.pairs x r i j);
  echo = λ i j g. ground (arith, w.echo i j);
}

-- The store of sessions plays no part.
pub registry-Echo : (st : SessionStore) (s : Relay) → Echo s → Echo (record s { registry = st })
registry-Echo st s w = record {
  unused = w.unused;
  unregistered = w.unregistered;
  lone = w.lone;
  pairs = w.pairs;
  echo = w.echo;
}

pub tunnel-Echo :
    (c d e : ℕ) (r : Role) (s : Relay)
    → slot r (s.entries e) ≡ some c
    → slot (opposite r) (s.entries e) ≡ some d
    → before_tunnel (s.conns c).phase ≡ true
    → Echo s
    → Echo (tunnel c d s)
unfolding tunnel
tunnel-Echo c d e r s own other h w = record {
  unused = λ i. ground (arith, w.unused i);
  unregistered = λ i. ground (arith, w.unregistered i);
  lone = λ x q i m n. ground (arith, w.lone x q i);
  pairs = λ x q i j m n g. ground (arith, w.pairs x q i j);
  echo = λ i j g. ground (
    arith,
    w.echo i j,
    w.unused c h,
    w.pairs e r c d own other h,
    relayed-append (s.conns c).out (paired_msg ∷ []),
  );
}

-- A channel of an entry that is emptied.
pub pair_ch-Echo :
    (e : ℕ) (ch : List ℕ) (s : Relay)
    → Echo s
    → Echo (record s { entries = update s.entries e (record (s.entries e) { pair_ch = ch }) })
pair_ch-Echo e ch s w = record {
  unused = w.unused;
  unregistered = w.unregistered;
  lone = λ x r i q k. ground (
    arith,
    w.lone x r i,
    slot-pair_ch r (s.entries e) ch,
    slot-pair_ch (opposite r) (s.entries e) ch,
  );
  pairs = λ x r i j q k g. ground (
    arith,
    w.pairs x r i j,
    slot-pair_ch r (s.entries e) ch,
    slot-pair_ch (opposite r) (s.entries e) ch,
  );
  echo = w.echo;
}

pub add_conn-Echo :
    (k : Conn) (s : Relay)
    → relayed k.out ≡ []
    → k.accepted ≡ []
    → k.send_ch ≡ []
    → (k.phase ≡ arrived) ⊎ (k.phase ≡ closed)
    → Inv s
    → Echo s
    → Echo (add_conn k s)
unfolding add_conn
add_conn-Echo k s o a b p v w = record {
  unused = λ i. ground (arith, w.unused i);
  unregistered = λ i. ground (arith, w.unregistered i);
  lone = λ x r i q n. ground (arith, w.lone x r i, v.slots x r i);
  pairs = λ x r i j q n g. ground (arith, w.pairs x r i j, v.slots x r i, v.slots x (opposite r) j);
  echo = λ i j g.
      ground (
        arith,
        w.echo i j,
        v.partners i j,
        v.slots (s.conns i).entry (opposite (s.conns i).role) j,
      );
}

-- A new entry, which nobody has registered in.
pub create-Echo :
    (token : Bytes) (now : ℕ) (st : SessionStore) (s : Relay)
    → Echo s
    → Echo (record s {
      registry = st;
      entries = update s.entries s.next_entry (new_entry token now);
      next_entry = suc s.next_entry;
    })
create-Echo token now st s w = record {
  unused = w.unused;
  unregistered = w.unregistered;
  lone = λ x r i q n. ground (arith, w.lone x r i, slot-new_entry token now r);
  pairs = λ x r i j q n g. ground (arith, w.pairs x r i j, slot-new_entry token now r);
  echo = w.echo;
}

pub start_effect :
    (k : Conn) (partner : Option ℕ)
    → k.phase ≡ arrived
    → (relayed (start k partner).out ≡ relayed k.out)
      × ((start k partner).accepted ≡ k.accepted)
      × ((start k partner).send_ch ≡ k.send_ch)
      × (((start k partner).phase ≡ closed) ⊎ ((start k partner).phase ≡ waiting partner))
unfolding start
start_effect k partner h =
    ground (arith, relayed-append k.out (waiting_msg ∷ []), append-nil (relayed k.out))

module _ (c : ℕ) (partner : Option ℕ) (new : SessionEntry) (s : Relay)
    (fresh : (s.conns c).phase ≡ arrived) (mine : slot (s.conns c).role new ≡ some c)
    (other : slot (opposite (s.conns c).role) new
      ≡ slot (opposite (s.conns c).role) (s.entries (s.conns c).entry))
    (free : slot (s.conns c).role (s.entries (s.conns c).entry) ≡ none) (v : Inv s)
    (w : Echo s) where
  pub admit-Echo : Echo (admit c partner new s)
  unfolding admit
  admit-Echo = record {
    unused = λ i. ground (arith, w.unused i, start_effect (s.conns c) partner, fresh);
    unregistered = λ i. ground (arith, w.unregistered i, start_effect (s.conns c) partner, fresh);
    lone = λ x r i q n. ground (
      arith,
      w.lone x r i,
      w.unregistered c,
      start_effect (s.conns c) partner fresh,
      v.slots x r i,
      Role-cases r (s.conns c).role,
      opposite-opposite (s.conns c).role,
    );
    pairs = λ x r i j q n g. ground (
      arith,
      w.pairs x r i j,
      w.lone x r i,
      w.lone x (opposite r) j,
      w.unregistered c,
      start_effect (s.conns c) partner fresh,
      v.slots x r i,
      v.slots x (opposite r) j,
      Role-cases r (s.conns c).role,
      opposite-opposite (s.conns c).role,
    );
    echo = λ i j g.
        ground (arith, w.echo i j, w.unregistered c, start_effect (s.conns c) partner, fresh);
  }

pub answer_free-Echo :
    (c : ℕ) (s : Relay) (r : Registration × SessionEntry)
    → (s.conns c).phase ≡ arrived
    → r.0 ≢ taken
    → slot (s.conns c).role r.1 ≡ some c
    → slot (opposite (s.conns c).role) r.1
      ≡ slot (opposite (s.conns c).role) (s.entries (s.conns c).entry)
    → slot (s.conns c).role (s.entries (s.conns c).entry) ≡ none
    → Inv s
    → Echo s
    → Echo (answer c r s)
unfolding answer
answer_free-Echo c s (taken, new) fresh n mine other free v w = absurd (n refl)
answer_free-Echo c s (paired d, new) fresh n mine other free v w =
    admit-Echo c (some d) new s fresh mine other free v w
answer_free-Echo c s (first, new) fresh n mine other free v w =
    admit-Echo c none new s fresh mine other free v w
answer_free-Echo c s (blocked, new) fresh n mine other free v w =
    stop-Echo c (record (s.conns c) { phase = stuck }) s (inr refl) refl w
