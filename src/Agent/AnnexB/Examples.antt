-- ===== src/Agent/AnnexB/Examples.antt =====
-- The conversion at concrete data.
use oblireach.Base.{◌≡◌, ◌≢◌, ◌⊎◌, inl, refl, [], ◌∷◌, Bytes, List, is_empty, arith}
use oblireach.Agent.AnnexB.{
  out_of_fuel, nal_len, convert, has_start_code, or_unchanged, ensure_annex_b,
}
use oblireach.Agent.AnnexB.Units.{avcc, annex_b, Cut, convert-ne-out_of_fuel}
use oblireach.Agent.AnnexB.Conversion.{
  ensure_annex_b_cases, ensure_annex_b-avcc, ensure_annex_b_misread,
}

abbrev two_units : List Bytes
two_units = (0x67 ∷ 0x42 ∷ []) ∷ (0x68 ∷ 0xce ∷ 0x3c ∷ []) ∷ []

abbrev encoded : Bytes
encoded = 0 ∷ 0 ∷ 0 ∷ 2 ∷ 0x67 ∷ 0x42 ∷ 0 ∷ 0 ∷ 0 ∷ 3 ∷ 0x68 ∷ 0xce ∷ 0x3c ∷ []

two_units-encoded : avcc two_units ≡ encoded
unfolding avcc
two_units-encoded = refl

rewritten_units :
    ensure_annex_b encoded ≡ 0 ∷ 0 ∷ 0 ∷ 1 ∷ 0x67 ∷ 0x42 ∷ 0 ∷ 0 ∷ 0 ∷ 1 ∷ 0x68 ∷ 0xce ∷ 0x3c ∷ []
unfolding ensure_annex_b has_start_code or_unchanged convert nal_len is_empty
rewritten_units = refl

ensure_annex_b-avcc_example : ensure_annex_b (avcc two_units) ≡ annex_b two_units
ensure_annex_b-avcc_example =
    ensure_annex_b-avcc (0x67 ∷ 0x42 ∷ []) ((0x68 ∷ 0xce ∷ 0x3c ∷ []) ∷ []) (omega arith)
      (omega arith) (inl (omega arith))

ensure_annex_b_misread_example :
    ensure_annex_b (avcc ((0x09 ∷ []) ∷ two_units)) ≡ avcc ((0x09 ∷ []) ∷ two_units)
ensure_annex_b_misread_example = ensure_annex_b_misread (0x09 ∷ []) two_units (inl refl)

ensure_annex_b_cases_example :
    (ensure_annex_b encoded ≡ encoded) ⊎ Cut encoded (ensure_annex_b encoded)
ensure_annex_b_cases_example = ensure_annex_b_cases encoded (omega arith)

convert-ne-out_of_fuel_example : convert 14 encoded [] ≢ out_of_fuel
convert-ne-out_of_fuel_example = convert-ne-out_of_fuel 14 encoded [] (omega arith)
