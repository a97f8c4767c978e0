-- ===== src/Agent/DeviceUuid/Trimming.antt =====
-- strings.TrimSpace and strings.ToLower on a text that neither changes.
use oblireach.Base.{ℕ, ◌≡◌, refl, false, [], ◌∷◌, Bytes, All, arith}
use oblireach.Agent.DeviceUuid.{
  is_space, trim_left_space, keep_from, trim_right_space, trim_space, lower, to_lower,
}

-- A byte that neither changes.
abbrev pub IsPlain : ℕ → Type 0
IsPlain c = (is_space c ≡ false) × (lower c ≡ c)

trim_left_space_plain : (s : Bytes) → All IsPlain s → trim_left_space s ≡ s
unfolding trim_left_space
trim_left_space_plain [] h = refl
trim_left_space_plain (c ∷ s) h = rw h.0.0 refl

trim_right_space_plain : (s : Bytes) → All IsPlain s → trim_right_space s ≡ s
unfolding trim_right_space keep_from
trim_right_space_plain [] h = refl
trim_right_space_plain (c ∷ []) h = rw h.0.0 refl
trim_right_space_plain (c ∷ d ∷ s) h =
    rw (trim_right_space, trim_right_space_plain (d ∷ s) h.1) refl

pub trim_space_plain : (s : Bytes) → All IsPlain s → trim_space s ≡ s
unfolding trim_space
trim_space_plain s h = rw (trim_left_space_plain s h) (trim_right_space_plain s h)

pub to_lower_plain : (s : Bytes) → All IsPlain s → to_lower s ≡ s
unfolding to_lower
to_lower_plain [] h = refl
to_lower_plain (c ∷ s) h = rw (h.0.1, to_lower_plain s h.1) refl

pub lower_idem : (c : ℕ) → lower (lower c) ≡ lower c
unfolding lower
lower_idem c = ground arith
