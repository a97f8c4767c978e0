-- ===== src/Server/Sessions/Laws.antt =====
-- Lemmas on the store and on the registration of server/session.go.
use oblireach.Base.{
  ℕ, zero, suc, ◌+◌, ◌≤◌, ◌≡◌, refl, inl, inr, ◌⊎◌, ◌≢◌, true, false, none, some, [], ◌∷◌, arith,
  Bytes, load, length, length-store_new, load-store, text_eq, if◌then◌else◌, ℤ, pos, negsuc,
  Option-cases, Bool-cases,
}
use oblireach.Server.Sessions.{
  SessionStore, SessionEntry, new_entry, Role, viewer, agent, opposite, slot, existing, created,
  full, get_or_create, count, is_full, taken, paired, first, register,
}

-- A limit that is not positive is no limit.
abbrev pub Within : ℤ → ℕ → Type 0
Within (pos zero) n = Unit {0}
Within (pos (suc m)) n = n ≤ suc m
Within (negsuc m) n = Unit {0}

is_full-Within : (max : ℤ) (n : ℕ) → is_full max n ≡ false → Within max (n + 1)
unfolding is_full
is_full-Within (pos zero) n h = tt
is_full-Within (pos (suc m)) n h = ground arith
is_full-Within (negsuc m) n h = tt

pub Within-mono : (max : ℤ) (m n : ℕ) → m ≤ n → Within max n → Within max m
Within-mono (pos zero) m n h w = tt
Within-mono (pos (suc k)) m n h w = omega arith
Within-mono (negsuc k) m n h w = tt

-- The number of sessions stays within the limit, whatever is asked for.
pub get_or_create-Within :
    (token : Bytes) (fresh : ℕ) (s : SessionStore)
    → Within s.max (count s)
    → Within (get_or_create token fresh s).1.max (count (get_or_create token fresh s).1)
unfolding get_or_create
get_or_create-Within token fresh s w = elim (Option-cases (load token s.sessions)) [
  | inr (e, p) ↦ rw (p, get_or_create) w
  | inl p ↦ elim (Bool-cases (is_full s.max (length s.sessions))) [
    | inl f ↦ rw (p, f, get_or_create) w
    | inr f ↦
        rw (p, f, get_or_create, length-store_new token fresh s.sessions p)
          (is_full-Within s.max (length s.sessions) f)
  ]
]

-- The three answers of getOrCreate: the entry that the token already has; a new one, for this token
-- alone; or nil, when the store is at its limit. Only the second changes the store.
pub get_or_create_cases :
    (token : Bytes) (fresh : ℕ) (s : SessionStore)
    → ((e : ℕ) × (load token s.sessions ≡ some e) × (get_or_create token fresh s ≡ (existing e, s)))
      ⊎ ((load token s.sessions ≡ none)
          × (is_full s.max (count s) ≡ true)
          × (get_or_create token fresh s ≡ (full, s)))
      ⊎ ((load token s.sessions ≡ none)
          × (is_full s.max (count s) ≡ false)
          × ((get_or_create token fresh s).0 ≡ created fresh)
          × ((get_or_create token fresh s).1.max ≡ s.max)
          × ((k : Bytes)
              → load k (get_or_create token fresh s).1.sessions
                ≡ (if text_eq token k then some fresh else load k s.sessions)))
unfolding get_or_create
get_or_create_cases token fresh s = elim (Option-cases (load token s.sessions)) [
  | inr (e, p) ↦ inl (e, p, rw (p, get_or_create))
  | inl p ↦ elim (Bool-cases (is_full s.max (length s.sessions))) [
    | inl f ↦ inr (inl (p, f, rw (p, f, get_or_create)))
    | inr f ↦ inr (
        inr (
          p,
          f,
          rw (p, f, get_or_create),
          rw (p, f, get_or_create),
          λ k. rw (p, f, get_or_create) (load-store token k fresh s.sessions),
        ))
  ]
]

pub register_free :
    (role : Role) (p : ℕ) (e : SessionEntry)
    → slot role e ≡ none
    → ((register role p e).0 ≢ taken)
      × (slot role (register role p e).1 ≡ some p)
      × (slot (opposite role) (register role p e).1 ≡ slot (opposite role) e)
      × ((register role p e).1.token ≡ e.token)
unfolding register
register_free viewer p e h = ground arith
register_free agent p e h = ground arith

-- Registration fills the slot of its role if that is free, and leaves the other slot and the token
-- alone; if the slot is taken it is refused and the entry stays as it is.
pub register_cases :
    (role : Role) (p : ℕ) (e : SessionEntry)
    → ((q : ℕ) × (slot role e ≡ some q) × (register role p e ≡ (taken, e)))
      ⊎ ((slot role e ≡ none)
          × ((register role p e).0 ≢ taken)
          × (slot role (register role p e).1 ≡ some p)
          × (slot (opposite role) (register role p e).1 ≡ slot (opposite role) e)
          × ((register role p e).1.token ≡ e.token))
unfolding register
register_cases role p e = elim (Option-cases (slot role e)) [
  | inl h ↦ let (a, b, c, d) = register_free role p e h in inr (h, a, b, c, d)
  | inr (q, h) ↦ inl (q, h, rw (h, register))
]

-- The first peer of a session gets the entry's channel, which stays as it is.
pub register-first :
    (role : Role) (p : ℕ) (e : SessionEntry)
    → slot role e ≡ none
    → slot (opposite role) e ≡ none
    → ((register role p e).0 ≡ first) × ((register role p e).1.pair_ch ≡ e.pair_ch)
unfolding register
register-first viewer p e h k = ground arith
register-first agent p e h k = ground arith

-- The second peer gets the first as its partner and is put into the channel for it.
pub register_second :
    (role : Role) (p d : ℕ) (e : SessionEntry)
    → slot role e ≡ none
    → slot (opposite role) e ≡ some d
    → e.pair_ch ≡ []
    → ((register role p e).0 ≡ paired d) × ((register role p e).1.pair_ch ≡ p ∷ [])
unfolding register
register_second viewer p d e h k c = ground arith
register_second agent p d e h k c = ground arith

pub slot-new_entry : (token : Bytes) (now : ℕ) (r : Role) → slot r (new_entry token now) ≡ none
unfolding new_entry
slot-new_entry token now viewer = refl
slot-new_entry token now agent = refl

pub new_entry_token : (token : Bytes) (now : ℕ) → (new_entry token now).token ≡ token
unfolding new_entry
new_entry_token token now = refl

pub new_entry_pair_ch : (token : Bytes) (now : ℕ) → (new_entry token now).pair_ch ≡ []
unfolding new_entry
new_entry_pair_ch token now = refl

-- The limit of a store never changes.
pub max-get_or_create :
    (token : Bytes) (fresh : ℕ) (s : SessionStore) → (get_or_create token fresh s).1.max ≡ s.max
unfolding get_or_create
max-get_or_create token fresh s = ground arith
