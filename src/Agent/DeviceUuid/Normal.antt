-- ===== src/Agent/DeviceUuid/Normal.antt =====
-- normaliseUUID of agent/machine_uuid.go, and the texts that it leaves alone.
use oblireach.Base.{
  ℕ, ◌≡◌, ◌≢◌, ◌⊎◌, inl, inr, ◌∙◌, refl, sym, ap, Bool, true, false, ◌&&◌, ◌||◌, not, Option, none,
  some, List, [], ◌∷◌, Bytes, All, IsByte, length, get_or, is_empty, text_eq, text_eq_iff, ◌==◌,
  arith, Bool-cases,
}
use mathlib.Core.Path.{subst}
use oblireach.Agent.DeviceUuid.{
  lower, to_lower, match_string, uuid_re, zero_uuid, trim_space, normalise_uuid, from_product,
  from_machine_id, read_machine_uuid, generate_uuid, with_dashes,
}
use oblireach.Agent.DeviceUuid.Trimming.{IsPlain, trim_space_plain, to_lower_plain, lower_idem}
use oblireach.Agent.DeviceUuid.Format.{to_plain, array, generate_uuid-form}

-- A UUID in the form that the agent uses: lower case, and not the zero one.
pub record IsUuid (t : Bytes) : Type 0 where
  pub form : match_string uuid_re t ≡ true
  pub plain : All IsPlain t
  pub nonzero : t ≢ zero_uuid

normalise_uuid-IsUuid : (t : Bytes) → IsUuid t → normalise_uuid t ≡ t
unfolding normalise_uuid
normalise_uuid-IsUuid t u =
    let other : text_eq t zero_uuid ≡ false = elim (Bool-cases (text_eq t zero_uuid)) [
      | inl same ↦ absurd (u.nonzero ((text_eq_iff t zero_uuid).0 same))
      | inr differs ↦ differs
    ] in
    rw (trim_space_plain t u.plain, to_lower_plain t u.plain, other, u.form) refl

lowered_plain :
    (ps : List Bool) (s : Bytes) → match_string ps (to_lower s) ≡ true → All IsPlain (to_lower s)
unfolding match_string to_lower
lowered_plain [] [] h = tt
lowered_plain [] (c ∷ s) h = absurd (cc)
lowered_plain (p ∷ ps) [] h = tt
lowered_plain (p ∷ ps) (c ∷ s) h =
    let (first, rest) = and_true _ _ h in
    (subst IsPlain (lower_idem c) (to_plain p (lower c) first), lowered_plain ps s rest)
  where
    and_true : (a b : Bool) → (a && b) ≡ true → (a ≡ true) × (b ≡ true)
    and_true true b h = (refl, h)
    and_true false b h = absurd (cc)

-- Whatever text a machine reports, normaliseUUID answers the empty text or a UUID in lower case that
-- is not the zero one, and it leaves that alone.
pub normalise_uuid_cases :
    (s : Bytes)
    → (normalise_uuid s ≡ [])
      ⊎ IsUuid (normalise_uuid s) × (normalise_uuid (normalise_uuid s) ≡ normalise_uuid s)
unfolding normalise_uuid
normalise_uuid_cases s =
    let t = to_lower (trim_space s) in
    elim (Bool-cases (text_eq t zero_uuid || not (match_string uuid_re t))) [
      | inl refused ↦ inl (rw refused refl)
      | inr kept ↦
          let form : match_string uuid_re t ≡ true = ground arith in
          let u : IsUuid t = record {
            form = form;
            plain = lowered_plain uuid_re (trim_space s) form;
            nonzero = λ e. absurd (let same = (text_eq_iff t zero_uuid).1 e in ground arith);
          } in
          inr (rw kept (u, normalise_uuid-IsUuid t u))
    ]

-- Every UUID that the agent generates is one that normaliseUUID leaves alone.
pub normalise-generate :
    (b0 b1 b2 b3 b4 b5 b6 b7 b8 b9 b10 b11 b12 b13 b14 b15 : ℕ)
    → All IsByte (array b0 b1 b2 b3 b4 b5 b6 b7 b8 b9 b10 b11 b12 b13 b14 b15)
    → let t = generate_uuid (array b0 b1 b2 b3 b4 b5 b6 b7 b8 b9 b10 b11 b12 b13 b14 b15) in
      IsUuid t × (normalise_uuid t ≡ t)
normalise-generate b0 b1 b2 b3 b4 b5 b6 b7 b8 b9 b10 b11 b12 b13 b14 b15 h =
    let t = generate_uuid (array b0 b1 b2 b3 b4 b5 b6 b7 b8 b9 b10 b11 b12 b13 b14 b15) in
    let (form, plain, four) =
      generate_uuid-form b0 b1 b2 b3 b4 b5 b6 b7 b8 b9 b10 b11 b12 b13 b14 b15 h in
    let u : IsUuid t = record {
      form = form;
      plain = plain;
      nonzero = λ e.
          absurd
            (let x : ◌≡◌ {A = ℕ} b'0' b'4' = ap (λ s. get_or s 14 0) (sym e) ∙ four in omega arith);
    } in
    (u, normalise_uuid-IsUuid t u)

from_product_cases : (b : Option Bytes) → (from_product b ≡ []) ⊎ IsUuid (from_product b)
unfolding from_product
from_product_cases none = inl refl
from_product_cases (some b) = elim (normalise_uuid_cases (trim_space b)) [
  | inl e ↦ inl e
  | inr u ↦ inr u.0
]

from_machine_id_cases : (b : Option Bytes) → (from_machine_id b ≡ []) ⊎ IsUuid (from_machine_id b)
unfolding from_machine_id
from_machine_id_cases none = inl refl
from_machine_id_cases (some b) = elim (Bool-cases (length (trim_space b) == 32)) [
  | inr other ↦ inl (rw other refl)
  | inl sized ↦ elim (normalise_uuid_cases (with_dashes (trim_space b))) [
    | inl e ↦ inl (rw sized e)
    | inr u ↦ inr (rw sized u.0)
  ]
]

-- What Linux reports is the empty text or a UUID.
pub read_machine_uuid_cases :
    (machine_id product_uuid : Option Bytes)
    → (read_machine_uuid machine_id product_uuid ≡ [])
      ⊎ IsUuid (read_machine_uuid machine_id product_uuid)
unfolding read_machine_uuid
read_machine_uuid_cases machine_id product_uuid =
    elim (Bool-cases (is_empty (from_machine_id machine_id))) [
      | inl nothing ↦ rw nothing (from_product_cases product_uuid)
      | inr found ↦ rw found (from_machine_id_cases machine_id)
    ]
