-- ===== src/Server/Relay/Pairing.antt =====
-- Who is paired with whom in the relay: the invariant of the heap of entries and connections.
pub mod Joining
pub mod Safety
use oblireach.Base.{
  ℕ, suc, ◌+◌, ◌≤◌, ◌<◌, ◌≡◌, refl, ◌≢◌, ◌⊎◌, inl, inr, Bool, true, false, Option, none, some, List,
  [], ◌∷◌, ◌++◌, arith, Bytes, load, load-delete, text_eq, text_eq_iff, length, ltb, ◌==◌,
  if◌then◌else◌, ℤ, update, Option-cases, Bool-cases,
}
use oblireach.Server.Sessions.{
  Role, viewer, agent, opposite, slot, SessionEntry, SessionStore, new_session_store, new_entry,
  Found, existing, created, full, get_or_create, remove, Registration, taken, paired, first,
  blocked, register,
}
use oblireach.Server.Relay.{
  Phase, arrived, waiting, tunnelling, closed, stuck, Conn, Relay, init, Outgoing,
}
use oblireach.Server.Relay.Steps.{
  join, receive, time_out, cancel, outbound, disconnect, inbound, leave_as, receive_as,
  from_pair_ch, tunnel, outbound_as, from_send_ch, disconnect_as, inbound_as, pass_on, offer, Event,
  joins, receives, times_out, cancels, inbounds, outbounds, disconnects, step, run,
}

abbrev pub partner_of : Phase → Option ℕ
partner_of arrived = none
partner_of (waiting p) = p
partner_of (tunnelling d) = some d
partner_of closed = none
partner_of stuck = none

pub record Inv (s : Relay) : Type 0 where
  -- The store leads to entries that exist, each under its own token.
  pub registered :
      (k : Bytes) (e : ℕ)
      → load k s.sessions ≡ some e
      → (e < s.next_entry) × ((s.entries e).token ≡ k)
  -- A peer in a slot is a connection of that role, entry and token.
  pub slots :
      (e : ℕ) (r : Role) (c : ℕ)
      → slot r (s.entries e) ≡ some c
      → (e < s.next_entry)
        × (c < s.next_conn)
        × ((s.conns c).role ≡ r)
        × ((s.conns c).entry ≡ e)
        × ((s.conns c).token ≡ (s.entries e).token)
        × ((s.conns c).phase ≢ arrived)
  -- A connection that has not registered has an entry for its token.
  pub unregistered :
      (c : ℕ)
      → (s.conns c).phase ≡ arrived
      → ((s.conns c).entry < s.next_entry)
        × (c < s.next_conn)
        × ((s.conns c).token ≡ (s.entries (s.conns c).entry).token)
  -- The first peer, while it waits, is in its slot.
  pub first_slot :
      (c : ℕ)
      → (s.conns c).phase ≡ waiting none
      → slot (s.conns c).role (s.entries (s.conns c).entry) ≡ some c
  -- A connection that knows its partner shares the entry with it, in the other role.
  pub partners :
      (c d : ℕ)
      → partner_of (s.conns c).phase ≡ some d
      → (slot (s.conns c).role (s.entries (s.conns c).entry) ≡ some c)
        × (slot (opposite (s.conns c).role) (s.entries (s.conns c).entry) ≡ some d)
  -- What waits in an entry's channel is its second peer.
  pub queued :
      (e p : ℕ) (rest : List ℕ)
      → (s.entries e).pair_ch ≡ p ∷ rest
      → (rest ≡ [])
        × (slot (s.conns p).role (s.entries e) ≡ some p)
        × ((s.conns p).phase ≢ waiting none)
        × (slot (opposite (s.conns p).role) (s.entries e) ≢ none)
  pub running : (c : ℕ) → (s.conns c).phase ≢ stuck

-- A step that moves no slot and makes no new acquaintance.
record Quiet (s t : Relay) : Type 0 where
  same_entries : t.entries ≡ s.entries
  same_next_entry : t.next_entry ≡ s.next_entry
  same_next_conn : t.next_conn ≡ s.next_conn
  fewer : (k : Bytes) (e : ℕ) → load k t.sessions ≡ some e → load k s.sessions ≡ some e
  conn :
      (c : ℕ)
      → ((t.conns c).role ≡ (s.conns c).role)
        × ((t.conns c).entry ≡ (s.conns c).entry)
        × ((t.conns c).token ≡ (s.conns c).token)
        × (((t.conns c).phase ≡ (s.conns c).phase)
            ⊎ ((t.conns c).phase ≡ closed)
            ⊎ ((d : ℕ) × ((t.conns c).phase ≡ tunnelling d)
                × (partner_of (s.conns c).phase ≡ some d)))

Quiet-Inv : {s t : Relay} → Quiet s t → Inv s → Inv t
Quiet-Inv {s} {t} q v = record {
  registered = λ k e h. ground (arith, v.registered k e, q.fewer k e h);
  slots = λ e r c h. ground (arith, v.slots e r c, q.conn c);
  unregistered = λ c h. ground (arith, v.unregistered c, q.conn c);
  first_slot = λ c h. ground (arith, v.first_slot c, q.conn c);
  partners = λ c d h. ground (arith, v.partners c d, q.conn c);
  queued = λ e p rest h. ground (arith, v.queued e p rest, q.conn p);
  running = λ c. ground (arith, v.running c, q.conn c);
}

fewer-remove :
    (token k : Bytes) (st : SessionStore) (e : ℕ)
    → load k (remove token st).sessions ≡ some e
    → load k st.sessions ≡ some e
unfolding remove
fewer-remove token k st e h = ground (arith, load-delete token k st.sessions)

leave_as-Quiet :
    (c : ℕ) (last : List Outgoing) (p : Phase) (s : Relay) → Quiet s (leave_as c last p s)
unfolding leave_as
leave_as-Quiet c last p s = record {
  same_entries = ground arith;
  same_next_entry = ground arith;
  same_next_conn = ground arith;
  fewer = λ k e h. ground (arith, fewer-remove (s.conns c).token k s.registry e);
  conn = λ i. ground arith;
}

outbound_as-Quiet : (c : ℕ) (p : Phase) (s : Relay) → Quiet s (outbound_as c p s)
unfolding outbound_as
outbound_as-Quiet c p s = record {
  same_entries = ground arith;
  same_next_entry = ground arith;
  same_next_conn = ground arith;
  fewer = λ k e h. ground arith;
  conn = λ i. ground arith;
}

disconnect_as-Quiet : (c : ℕ) (p : Phase) (s : Relay) → Quiet s (disconnect_as c p s)
unfolding disconnect_as
disconnect_as-Quiet c p s = record {
  same_entries = ground arith;
  same_next_entry = ground arith;
  same_next_conn = ground arith;
  fewer = λ k e h. ground (arith, fewer-remove (s.conns c).token k s.registry e);
  conn = λ i. ground arith;
}

inbound_as-Quiet :
    (message_type : Bytes → Option Bytes) (c : ℕ) (is_text : Bool) (bytes : Bytes) (p : Phase)
    (s : Relay)
    → Quiet s (inbound_as message_type c is_text bytes p s)
unfolding inbound_as
inbound_as-Quiet message_type c is_text bytes p s = record {
  same_entries = ground arith;
  same_next_entry = ground arith;
  same_next_conn = ground arith;
  fewer = λ k e h. ground arith;
  conn = λ i. ground arith;
}

tunnel-Quiet :
    (c d : ℕ) (s : Relay) → partner_of (s.conns c).phase ≡ some d → Quiet s (tunnel c d s)
unfolding tunnel
tunnel-Quiet c d s h = record {
  same_entries = refl;
  same_next_entry = refl;
  same_next_conn = refl;
  fewer = λ k e h. h;
  conn = λ i. ground arith;
}

pub Role-cases : (r q : Role) → (r ≡ q) ⊎ (r ≡ opposite q)
Role-cases viewer viewer = inl refl
Role-cases viewer agent = inr refl
Role-cases agent viewer = inr refl
Role-cases agent agent = inl refl

pub opposite-opposite : (r : Role) → opposite (opposite r) ≡ r
opposite-opposite viewer = refl
opposite-opposite agent = refl

pub slot-pair_ch :
    (r : Role) (e : SessionEntry) (ch : List ℕ) → slot r (record e { pair_ch = ch }) ≡ slot r e
slot-pair_ch viewer e ch = refl
slot-pair_ch agent e ch = refl

-- The first peer learns its partner: what waits in the channel is the peer of the other role.
pub first_partner :
    (c p : ℕ) (rest : List ℕ) (s : Relay)
    → Inv s
    → (s.conns c).phase ≡ waiting none
    → (s.entries (s.conns c).entry).pair_ch ≡ p ∷ rest
    → (rest ≡ []) × (slot (opposite (s.conns c).role) (s.entries (s.conns c).entry) ≡ some p)
first_partner c p rest s v w h = ground (
  arith,
  v.first_slot c w,
  v.queued (s.conns c).entry p rest h,
  Role-cases (s.conns c).role (s.conns p).role,
)

pop-Inv :
    (c p : ℕ) (rest : List ℕ) (s : Relay)
    → Inv s
    → (s.conns c).phase ≡ waiting none
    → (s.entries (s.conns c).entry).pair_ch ≡ p ∷ rest
    → Inv (from_pair_ch c (p ∷ rest) s)
unfolding from_pair_ch
pop-Inv c p rest s v w h = record {
  registered = λ k e. ground (arith, v.registered k e);
  slots =
      λ e r i q. ground (arith, v.slots e r i, slot-pair_ch r (s.entries (s.conns c).entry) rest);
  unregistered = λ i. ground (arith, v.unregistered i);
  first_slot = λ i q.
      ground
        (arith, v.first_slot i, slot-pair_ch (s.conns i).role (s.entries (s.conns c).entry) rest);
  partners = λ i d q. ground (
    arith,
    v.partners i d,
    v.first_slot c w,
    first_partner c p rest s v w h,
    slot-pair_ch (s.conns i).role (s.entries (s.conns c).entry) rest,
    slot-pair_ch (opposite (s.conns i).role) (s.entries (s.conns c).entry) rest,
  );
  queued = λ e i r q. ground (
    arith,
    v.queued e i r,
    first_partner c p rest s v w h,
    slot-pair_ch (s.conns i).role (s.entries (s.conns c).entry) rest,
    slot-pair_ch (opposite (s.conns i).role) (s.entries (s.conns c).entry) rest,
  );
  running = λ i. ground (arith, v.running i);
}
