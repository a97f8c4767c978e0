-- ===== src/Server/Relay/Pairing/Joining.antt =====
-- The invariant of the relay at the join and the registration of a connection.
use oblireach.Base.{
  ℕ, suc, ◌<◌, ◌≡◌, refl, sym, ap, ◌∙◌, ◌⊎◌, inl, inr, Option, none, some, List, [], ◌∷◌, arith,
  Bytes, load, text_eq, text_eq_iff, if◌then◌else◌, update, update_self, Option-cases,
}
use oblireach.Server.Sessions.{
  Role, opposite, slot, SessionEntry, SessionStore, new_entry, get_or_create, Registration, taken,
  paired, first, register,
}
use oblireach.Server.Sessions.Laws.{
  slot-new_entry, new_entry_token, new_entry_pair_ch, get_or_create_cases, register_cases,
  register_free, register-first, register_second,
}
use oblireach.Server.Relay.{
  Phase, arrived, waiting, tunnelling, closed, stuck, Conn, Relay, new_conn,
}
use oblireach.Server.Relay.Steps.{
  join, add_conn, start, admit, set_conn, answer, register_as, register_peer, enter, enter_created,
}
use oblireach.Server.Relay.Pairing.{Inv, Quiet, Quiet-Inv, Role-cases, opposite-opposite}

-- A connection that is over from the start.
add_closed-Inv : (k : Conn) (s : Relay) → k.phase ≡ closed → Inv s → Inv (add_conn k s)
unfolding add_conn
add_closed-Inv k s h v = record {
  registered = λ t e. ground (arith, v.registered t e);
  slots = λ e r c. ground (arith, v.slots e r c);
  unregistered = λ c. ground (arith, v.unregistered c);
  first_slot = λ c. ground (arith, v.first_slot c);
  partners = λ c d. ground (arith, v.partners c d);
  queued = λ e p rest q. ground (arith, v.queued e p rest q, v.slots e (s.conns p).role p);
  running = λ c. ground (arith, v.running c);
}

-- The two ways in: the first peer waits on the entry's channel, the second has its partner and
-- stands in that channel.
abbrev Admitted : SessionEntry → SessionEntry → ℕ → Option ℕ → Option ℕ → Type 0
Admitted old new c partner other =
    ((partner ≡ none) × (other ≡ none) × (new.pair_ch ≡ old.pair_ch))
    ⊎ ((d : ℕ) × (partner ≡ some d) × (other ≡ some d) × (new.pair_ch ≡ c ∷ []))

start_phase :
    (k : Conn) (partner : Option ℕ)
    → ((start k partner).phase ≡ closed) ⊎ ((start k partner).phase ≡ waiting partner)
unfolding start
start_phase k partner = ground arith

start_fields :
    (k : Conn) (partner : Option ℕ)
    → ((start k partner).role ≡ k.role)
      × ((start k partner).entry ≡ k.entry)
      × ((start k partner).token ≡ k.token)
unfolding start
start_fields k partner = ground arith

module _ (c : ℕ) (partner : Option ℕ) (new : SessionEntry) (s : Relay)
    (fresh : (s.conns c).phase ≡ arrived)
    (free : slot (s.conns c).role (s.entries (s.conns c).entry) ≡ none)
    (mine : slot (s.conns c).role new ≡ some c)
    (other : slot (opposite (s.conns c).role) new
      ≡ slot (opposite (s.conns c).role) (s.entries (s.conns c).entry))
    (token : new.token ≡ (s.entries (s.conns c).entry).token)
    (way : Admitted
      (s.entries (s.conns c).entry)
      new
      c
      partner
      (slot (opposite (s.conns c).role) (s.entries (s.conns c).entry)))
    (v : Inv s) where
  admit-Inv : Inv (admit c partner new s)
  unfolding admit
  admit-Inv = record {
    registered = λ t i. ground (arith, v.registered t i);
    slots = λ i r j q. ground (
      arith,
      v.slots i r j,
      v.unregistered c fresh,
      Role-cases r (s.conns c).role,
      start_fields (s.conns c) partner,
      start_phase (s.conns c) partner,
    );
    unregistered = λ j q. ground (arith, v.unregistered j, start_phase (s.conns c) partner);
    first_slot = λ j q. ground (
      arith,
      v.first_slot j,
      Role-cases (s.conns j).role (s.conns c).role,
      start_fields (s.conns c) partner,
      start_phase (s.conns c) partner,
    );
    partners = λ j d q. ground (
      arith,
      v.partners j d,
      Role-cases (s.conns j).role (s.conns c).role,
      opposite-opposite (s.conns c).role,
      start_fields (s.conns c) partner,
      start_phase (s.conns c) partner,
    );
    queued = λ i p rest q. ground (
      arith,
      v.queued i p rest,
      v.slots i (s.conns p).role p,
      Role-cases (s.conns p).role (s.conns c).role,
      opposite-opposite (s.conns c).role,
      start_fields (s.conns c) partner,
      start_phase (s.conns c) partner,
    );
    running = λ j. ground (arith, v.running j, start_phase (s.conns c) partner);
  }

-- Before both slots are taken nothing is in the channel, so a send on it does not wait.
free_pair_ch :
    (role : Role) (e : ℕ) (s : Relay) (ch : List ℕ)
    → Inv s
    → slot role (s.entries e) ≡ none
    → (s.entries e).pair_ch ≡ ch
    → ch ≡ []
free_pair_ch role e s [] v free h = refl
free_pair_ch role e s (p ∷ rest) v free h =
    ground (arith, v.queued e p rest h, Role-cases role (s.conns p).role)

answer-first :
    (c : ℕ) (s : Relay) (r : Registration × SessionEntry)
    → r.0 ≡ first
    → answer c r s ≡ admit c none r.1 s
unfolding answer
answer-first c s r h = ground arith

answer_paired :
    (c d : ℕ) (s : Relay) (r : Registration × SessionEntry)
    → r.0 ≡ paired d
    → answer c r s ≡ admit c (some d) r.1 s
unfolding answer
answer_paired c d s r h = ground arith

answer_taken-Quiet :
    (c : ℕ) (s : Relay) (entry : SessionEntry) → Quiet s (answer c (taken, entry) s)
unfolding answer set_conn
answer_taken-Quiet c s entry = record {
  same_entries = refl;
  same_next_entry = refl;
  same_next_conn = refl;
  fewer = λ k e h. h;
  conn = λ i. ground arith;
}

module _ (c : ℕ) (s : Relay) (fresh : (s.conns c).phase ≡ arrived) (v : Inv s) where
  -- The registration of the connection in its entry.
  abbrev registration : Registration × SessionEntry
  registration = register (s.conns c).role c (s.entries (s.conns c).entry)

  answer_free-Inv :
      slot (s.conns c).role (s.entries (s.conns c).entry) ≡ none → Inv (answer c registration s)
  answer_free-Inv free =
      let (_, mine, other, same) =
        register_free (s.conns c).role c (s.entries (s.conns c).entry) free in
      elim (Option-cases (slot (opposite (s.conns c).role) (s.entries (s.conns c).entry))) [
        | inl alone ↦
            let (ans, ch) =
              register-first (s.conns c).role c (s.entries (s.conns c).entry) free alone in
            rw (answer-first c s registration ans) (
              admit-Inv c none registration.1 s fresh free mine other same (inl (refl, alone, ch))
                v)
        | inr (d, met) ↦
            let empty = free_pair_ch (s.conns c).role (s.conns c).entry s _ v free refl in
            let (ans, ch) =
              register_second (s.conns c).role c d (s.entries (s.conns c).entry) free met empty in
            rw (answer_paired c d s registration ans) (
              admit-Inv c (some d) registration.1 s fresh free mine other same
                (inr (d, refl, met, ch)) v)
      ]

  answer-Inv : Inv (answer c registration s)
  answer-Inv = elim (register_cases (s.conns c).role c (s.entries (s.conns c).entry)) [
    | inl (q, _, refused) ↦ rw refused (Quiet-Inv (answer_taken-Quiet c s _) v)
    | inr free ↦ answer_free-Inv free.0
  ]

register_as-Inv :
    (c : ℕ) (p : Phase) (s : Relay) → (s.conns c).phase ≡ p → Inv s → Inv (register_as c p s)
unfolding register_as
register_as-Inv c arrived s h v = answer-Inv c s h v
register_as-Inv c (waiting w) s h v = v
register_as-Inv c (tunnelling d) s h v = v
register_as-Inv c closed s h v = v
register_as-Inv c stuck s h v = v

pub register_peer-Inv : (c : ℕ) (s : Relay) → Inv s → Inv (register_peer c s)
unfolding register_peer
register_peer-Inv c s v = register_as-Inv c (s.conns c).phase s refl v

add_arrived-Inv :
    (k : Conn) (s : Relay)
    → k.phase ≡ arrived
    → k.entry < s.next_entry
    → k.token ≡ (s.entries k.entry).token
    → Inv s
    → Inv (add_conn k s)
unfolding add_conn
add_arrived-Inv k s h there same v = record {
  registered = λ t e. ground (arith, v.registered t e);
  slots = λ e r c. ground (arith, v.slots e r c);
  unregistered = λ c. ground (arith, v.unregistered c);
  first_slot = λ c. ground (arith, v.first_slot c);
  partners = λ c d. ground (arith, v.partners c d);
  queued = λ e p rest q. ground (arith, v.queued e p rest q, v.slots e (s.conns p).role p);
  running = λ c. ground (arith, v.running c);
}

-- A new entry, empty and under its token.
pub create-Inv :
    (token : Bytes) (now : ℕ) (st : SessionStore) (s : Relay)
    → ((k : Bytes)
        → load k st.sessions ≡ (if text_eq token k then some s.next_entry else load k s.sessions))
    → Inv s
    → Inv (record s {
      registry = st;
      entries = update s.entries s.next_entry (new_entry token now);
      next_entry = suc s.next_entry;
    })
create-Inv token now st s law v = record {
  registered = λ k e.
      ground (arith, law k, text_eq_iff token k, v.registered k e, new_entry_token token now);
  slots = λ e r c. ground (arith, v.slots e r c, slot-new_entry token now r);
  unregistered = λ c. ground (arith, v.unregistered c);
  first_slot = λ c q. ground (arith, v.first_slot c, v.slots (s.conns c).entry (s.conns c).role c);
  partners = λ c d q. ground (arith, v.partners c d, v.slots (s.conns c).entry (s.conns c).role c);
  queued = λ e p rest q.
      ground (arith, v.queued e p rest, v.slots e (s.conns p).role p, new_entry_pair_ch token now);
  running = v.running;
}

pub join-Inv :
    (role : Role) (token : Bytes) (now : ℕ) (s : Relay) → Inv s → Inv (join role token now s)
unfolding join enter new_conn
join-Inv role token now s v = elim (get_or_create_cases token s.next_entry s.registry) [
  | inl (e, found, ans) ↦
      let (there, under) = v.registered token e found in
      rw ans (add_arrived-Inv _ s refl there (sym under) v)
  | inr (inl (_, _, ans)) ↦ rw ans (add_closed-Inv _ s refl v)
  | inr (inr (absent, room, ans, _, law)) ↦
      let found = get_or_create token s.next_entry s.registry in
      let at_new = update_self s.entries s.next_entry (new_entry token now) in
      rw (enter_created role token now s.next_entry s found ans) (
        add_arrived-Inv _ _ refl (omega arith)
          (sym (ap (λ n. n.token) at_new ∙ new_entry_token token now))
          (create-Inv token now found.1 s law v))
]
