-- ===== src/Agent/AnnexB/Conversion.antt =====
-- What ensureAnnexB (agent/encode_windows.go) makes of a list of NAL units, and of any data.
use oblireach.Base.{
  suc, ◌≤◌, ◌<◌, ◌≡◌, ◌≢◌, ◌⊎◌, inl, inr, refl, sym, ap, ◌∙◌, true, false, List, [], ◌∷◌, ◌++◌,
  Bytes, All, IsByte, length, is_empty, ltb, length-append, arith, Bool-cases,
}
use oblireach.Agent.AnnexB.{
  Outcome, converted, invalid, out_of_fuel, convert, has_start_code, or_unchanged, ensure_annex_b,
}
use mathlib.Core.List.{append-nil}
use oblireach.Agent.AnnexB.Units.{
  length_prefix, avcc, annex_b, IsUnit, Cut, convert-avcc, convert-Cut,
}

finish :
    (bytes : Bytes) (o : Outcome)
    → All IsByte bytes
    → convert (suc (length bytes)) bytes [] ≡ o
    → (or_unchanged bytes o ≡ bytes) ⊎ Cut bytes (or_unchanged bytes o)
unfolding or_unchanged
finish bytes invalid h e = inl refl
finish bytes out_of_fuel h e = inl refl
finish bytes (converted out) h e = elim (Bool-cases (is_empty out)) [
  | inl nothing ↦ inl (rw nothing refl)
  | inr something ↦
      let (added, same, cut) = convert-Cut (suc (length bytes)) bytes [] out h e in
      inr (rw (something, same) cut)
]

start_code_read :
    (nal : Bytes) (t : Bytes)
    → (length nal ≡ 1) ⊎ (256 ≤ length nal) × (length nal < 512)
    → has_start_code (length_prefix (length nal) ++ t) ≡ true
unfolding has_start_code
start_code_read nal t h = ground arith

start_code_not_read :
    (nal : Bytes) (t : Bytes)
    → IsUnit nal
    → length nal ≢ 1
    → (length nal < 256) ⊎ (511 < length nal)
    → has_start_code (length_prefix (length nal) ++ t) ≡ false
unfolding has_start_code
start_code_not_read nal t unit single small = ground arith

-- Whatever the encoder produces, the result is either the data as it was, or the Annex B form of
-- the units that the data announces by their lengths, with at most three bytes after the last one,
-- which are lost.
pub ensure_annex_b_cases :
    (bytes : Bytes)
    → All IsByte bytes
    → (ensure_annex_b bytes ≡ bytes) ⊎ Cut bytes (ensure_annex_b bytes)
unfolding ensure_annex_b
ensure_annex_b_cases bytes h = elim (Bool-cases (ltb (length bytes) 5)) [
  | inl short ↦ inl (rw short refl)
  | inr long ↦ elim (Bool-cases (has_start_code bytes)) [
    | inl coded ↦ inl (rw (long, coded) refl)
    | inr plain ↦ rw (long, plain) (finish bytes _ h refl)
  ]
]

-- Where the first unit is not one that reads as a start code, whole units are converted.
pub ensure_annex_b-avcc :
    (nal : Bytes) (nals : List Bytes)
    → All IsUnit (nal ∷ nals)
    → length nal ≢ 1
    → (length nal < 256) ⊎ (511 < length nal)
    → ensure_annex_b (avcc (nal ∷ nals)) ≡ annex_b (nal ∷ nals)
unfolding ensure_annex_b or_unchanged avcc annex_b is_empty
ensure_annex_b-avcc nal nals units single small =
    let whole = avcc (nal ∷ nals) in
    let long : ltb (length whole) 5 ≡ false = ground (arith, length-append nal (avcc nals)) in
    let all : convert (suc (length whole)) whole [] ≡ converted (annex_b (nal ∷ nals)) =
      ap (λ t. convert (suc (length whole)) t []) (sym (append-nil whole))
      ∙ convert-avcc (nal ∷ nals) (suc (length whole)) [] [] units (omega arith) (omega arith) in
    rw (long, start_code_not_read nal (nal ++ avcc nals) units.0 single small, all) refl

-- A first unit of one byte, or of 256 to 511 bytes, starts with a length that reads as a start code,
-- and the data stays as it is.
pub ensure_annex_b_misread :
    (nal : Bytes) (nals : List Bytes)
    → (length nal ≡ 1) ⊎ (256 ≤ length nal) × (length nal < 512)
    → ensure_annex_b (avcc (nal ∷ nals)) ≡ avcc (nal ∷ nals)
unfolding ensure_annex_b avcc
ensure_annex_b_misread nal nals h = elim (Bool-cases (ltb (length (avcc (nal ∷ nals))) 5)) [
  | inl short ↦ rw short refl
  | inr long ↦ rw (long, start_code_read nal (nal ++ avcc nals) h) refl
]
