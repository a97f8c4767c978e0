-- ===== src/Agent/AnnexB/Units.antt =====
-- The loop of ensureAnnexB (agent/encode_windows.go) on a list of NAL units, and on any data.
use oblireach.Base.{
  ℕ, zero, suc, ◌+◌, ◌-◌, ◌*◌, ◌/◌, ◌%◌, ◌^◌, ◌≤◌, ◌<◌, ◌≡◌, ◌≢◌, inl, inr, refl, ap, ◌∙◌, true,
  false, ◌||◌, List, [], ◌∷◌, ◌++◌, Bytes, All, IsByte, length, take, drop, ltb, ◌==◌,
  length-append, take-append, drop-append, arith, Bool-cases,
}
use oblireach.Agent.AnnexB.{converted, invalid, out_of_fuel, start_code, nal_len, convert}
use mathlib.Core.Path.{subst}
use mathlib.Core.List.{append_assoc, append-nil}

abbrev pub length_prefix : ℕ → Bytes
length_prefix n = n / 2 ^ 24 ∷ n / 2 ^ 16 % 256 ∷ n / 2 ^ 8 % 256 ∷ n % 256 ∷ []

-- The two forms of a list of NAL units.
unfoldable pub avcc : List Bytes → Bytes
avcc [] = []
avcc (nal ∷ nals) = length_prefix (length nal) ++ (nal ++ avcc nals)

unfoldable pub annex_b : List Bytes → Bytes
annex_b [] = []
annex_b (nal ∷ nals) = start_code ++ (nal ++ annex_b nals)

-- A unit that a length of four bytes can announce.
abbrev pub IsUnit : Bytes → Type 0
IsUnit nal = (0 < length nal) × (length nal < 2 ^ 32)

length-drop : (n : ℕ) (xs : Bytes) → length (drop n xs) ≡ length xs - n
length-drop zero xs = omega arith
length-drop (suc n) [] = omega arith
length-drop (suc n) (x ∷ xs) = omega (arith, length-drop n xs)

nal_len-prefix : (n : ℕ) (t : Bytes) → n < 2 ^ 32 → nal_len (length_prefix n ++ t) ≡ n
unfolding nal_len
nal_len-prefix n t h = omega arith

-- One round of the loop, on a unit and what follows it.
convert_unit :
    (nal rest out : Bytes) (fuel : ℕ)
    → IsUnit nal
    → convert (suc fuel) (length_prefix (length nal) ++ (nal ++ rest)) out
      ≡ convert fuel rest (out ++ (start_code ++ nal))
unfolding convert
convert_unit nal rest out fuel unit =
    let here : (length nal == 0 || ltb (length (nal ++ rest)) (length nal)) ≡ false =
      ground (arith, length-append nal rest) in
    let long : ltb (suc (suc (suc (suc (length (nal ++ rest)))))) 4 ≡ false = ground arith in
    rw
      (
        nal_len-prefix (length nal) (nal ++ rest) unit.1,
        here,
        long,
        take-append nal rest,
        drop-append nal rest,
      )
      refl

pub convert-avcc :
    (nals : List Bytes) (fuel : ℕ) (out tail : Bytes)
    → All IsUnit nals
    → length tail < 4
    → length (avcc nals) < fuel
    → convert fuel (avcc nals ++ tail) out ≡ converted (out ++ annex_b nals)
unfolding convert avcc annex_b
convert-avcc nals zero out tail units short enough = absurd (omega arith)
convert-avcc [] (suc fuel) out tail units short enough =
    let last : ltb (length tail) 4 ≡ true = ground arith in rw (last, append-nil) refl
convert-avcc (nal ∷ nals) (suc fuel) out tail units short enough =
    ap (λ t. convert (suc fuel) (length_prefix (length nal) ++ t) out)
      (append_assoc nal (avcc nals) tail)
    ∙ convert_unit nal (avcc nals ++ tail) out fuel units.0
    ∙ convert-avcc nals fuel (out ++ (start_code ++ nal)) tail units.1 short
        (omega (arith, length-append nal (avcc nals)))
    ∙ ap converted (simp append_assoc)

-- The loop ends within the fuel that is given.
pub convert-ne-out_of_fuel :
    (fuel : ℕ) (rest out : Bytes) → length rest < fuel → convert fuel rest out ≢ out_of_fuel
unfolding convert
convert-ne-out_of_fuel zero rest out h = absurd (omega arith)
convert-ne-out_of_fuel (suc fuel) rest out h =
    let n = nal_len rest in
    let body = drop 4 rest in
    ground (
      arith,
      length-drop 4 rest,
      length-drop n body,
      convert-ne-out_of_fuel fuel (drop n body) (out ++ (start_code ++ take n body)),
    )

take-drop : (n : ℕ) (xs : Bytes) → take n xs ++ drop n xs ≡ xs
take-drop zero xs = refl
take-drop (suc n) [] = refl
take-drop (suc n) (x ∷ xs) = ap (◌∷◌ x) (take-drop n xs)

length-take : (n : ℕ) (xs : Bytes) → n ≤ length xs → length (take n xs) ≡ n
length-take zero xs h = refl
length-take (suc n) [] h = absurd (omega arith)
length-take (suc n) (x ∷ xs) h = omega (arith, length-take n xs)

All-drop : (n : ℕ) (xs : Bytes) → All IsByte xs → All IsByte (drop n xs)
All-drop zero xs h = h
All-drop (suc n) [] h = h
All-drop (suc n) (x ∷ xs) h = All-drop n xs h.1

prefix-nal_len :
    (a b c d : ℕ) (body : Bytes)
    → a < 256
    → b < 256
    → c < 256
    → d < 256
    → (length_prefix (nal_len (a ∷ b ∷ c ∷ d ∷ body)) ≡ a ∷ b ∷ c ∷ d ∷ [])
      × (nal_len (a ∷ b ∷ c ∷ d ∷ body) < 2 ^ 32)
unfolding nal_len
prefix-nal_len a b c d body ha hb hc hd =
    let n = a * 2 ^ 24 + b * 2 ^ 16 + c * 2 ^ 8 + d in
    let ea : n / 2 ^ 24 ≡ a = omega arith in
    let eb : n / 2 ^ 16 % 256 ≡ b = omega arith in
    let ec : n / 2 ^ 8 % 256 ≡ c = omega arith in
    let ed : n % 256 ≡ d = omega arith in (cc, omega arith)

-- What the data is cut into: units, and up to three bytes at the end.
pub record Cut (rest added : Bytes) : Type 0 where
  pub nals : List Bytes
  pub tail : Bytes
  pub units : All IsUnit nals
  pub short : length tail < 4
  pub whole : rest ≡ avcc nals ++ tail
  pub rewritten : added ≡ annex_b nals

Cut-unit :
    (prefix nal body added : Bytes)
    → IsUnit nal
    → length_prefix (length nal) ≡ prefix
    → Cut body added
    → Cut (prefix ++ (nal ++ body)) (start_code ++ (nal ++ added))
unfolding avcc annex_b
Cut-unit prefix nal body added unit e k = record {
  nals = nal ∷ k.nals;
  tail = k.tail;
  units = (unit, k.units);
  short = k.short;
  whole = rw (← e, k.whole) (simp append_assoc);
  rewritten = rw k.rewritten refl;
}

Cut-tail :
    (tail out res : Bytes)
    → length tail < 4
    → converted out ≡ converted res
    → (added : Bytes) × (res ≡ out ++ added) × Cut tail added
unfolding avcc annex_b
Cut-tail tail out res short e = (
  [],
  rw append-nil (cc),
  record { nals = []; tail = tail; units = tt; short = short; whole = refl; rewritten = refl },
)

-- A run of the loop that ends has cut the data.
pub convert-Cut :
    (fuel : ℕ) (rest out res : Bytes)
    → All IsByte rest
    → convert fuel rest out ≡ converted res
    → (added : Bytes) × (res ≡ out ++ added) × Cut rest added
unfolding convert
convert-Cut zero rest out res bytes e = absurd (cc)
convert-Cut (suc fuel) [] out res bytes e = Cut-tail [] out res (omega arith) e
convert-Cut (suc fuel) (a ∷ []) out res bytes e = Cut-tail (a ∷ []) out res (omega arith) e
convert-Cut (suc fuel) (a ∷ b ∷ []) out res bytes e = Cut-tail (a ∷ b ∷ []) out res (omega arith) e
convert-Cut (suc fuel) (a ∷ b ∷ c ∷ []) out res bytes e =
    Cut-tail (a ∷ b ∷ c ∷ []) out res (omega arith) e
convert-Cut (suc fuel) (a ∷ b ∷ c ∷ d ∷ body) out res bytes e =
    let n = nal_len (a ∷ b ∷ c ∷ d ∷ body) in
    let nal = take n body in
    let long : ltb (suc (suc (suc (suc (length body))))) 4 ≡ false = ground arith in
    let (coded, small) = prefix-nal_len a b c d body bytes.0 bytes.1.0 bytes.1.1.0 bytes.1.1.1.0 in
    elim (Bool-cases (n == 0 || ltb (length body) n)) [
      | inl bad ↦ absurd (let x : invalid ≡ converted res = rw (long, bad) at e in cc)
      | inr good ↦
          let next : convert fuel (drop n body) (out ++ (start_code ++ nal)) ≡ converted res =
            rw (long, good) at e in
          let size = length-take n body (ground arith) in
          let (added, at_end, cut) =
            convert-Cut fuel (drop n body) (out ++ (start_code ++ nal)) res
              (All-drop n body bytes.1.1.1.1) next in
          let unit : IsUnit nal = rw size (ground arith, small) in
          (
            start_code ++ (nal ++ added),
            rw at_end (simp append_assoc),
            subst (λ t. Cut (a ∷ b ∷ c ∷ d ∷ t) (start_code ++ (nal ++ added))) (take-drop n body)
                (Cut-unit (a ∷ b ∷ c ∷ d ∷ []) nal (drop n body) added unit (rw size coded) cut),
          )
    ]
