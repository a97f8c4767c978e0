-- ===== src/Agent/DeviceUuid/Format.antt =====
-- Texts that have the form of a UUID (agent/machine_uuid.go), and the text that generateUUID of
-- agent/main.go prints.
use oblireach.Base.{
  ℕ, zero, suc, ◌+◌, ◌/◌, ◌%◌, ◌<◌, ◌≡◌, ◌∙◌, refl, Bool, true, false, List, [], ◌∷◌, ◌++◌, Bytes,
  All, IsByte, length, get_or, ◌==◌, if◌then◌else◌, arith, bit_and, bit_or, bit_and_0f, bit_or_40,
  bit_and_3f, bit_or_variant, All-append,
}
use oblireach.Server.Token.{hex_digit, hex_encode}
use oblireach.Agent.DeviceUuid.{
  is_space, lower, is_hex, hex_digits, uuid_re, match_string, with_version, print_uuid,
  generate_uuid,
}
use oblireach.Agent.DeviceUuid.Trimming.{IsPlain}

-- A text of the form, in lower case.
pub to_plain : (p : Bool) (c : ℕ) → (if p then is_hex c else c == b'-') ≡ true → IsPlain (lower c)
unfolding is_hex lower is_space
to_plain true c h = ground arith
to_plain false c h = ground arith

pub match_string-append :
    (ps qs : List Bool) (s t : Bytes)
    → match_string ps s ≡ true
    → match_string qs t ≡ true
    → match_string (ps ++ qs) (s ++ t) ≡ true
unfolding match_string
match_string-append [] qs [] t h k = k
match_string-append [] qs (c ∷ s) t h k = absurd (cc)
match_string-append (p ∷ ps) qs [] t h k = absurd (cc)
match_string-append (p ∷ ps) qs (c ∷ s) t h k = ground (arith, match_string-append ps qs s t)

hex_digit-is_hex : (x : ℕ) → x < 16 → is_hex (hex_digit x) ≡ true
unfolding is_hex hex_digit
hex_digit-is_hex x h = ground arith

hex_digit-IsPlain : (x : ℕ) → x < 16 → IsPlain (hex_digit x)
unfolding is_space lower hex_digit
hex_digit-IsPlain x h = ground arith

twice : ℕ → ℕ
twice zero = zero
twice (suc n) = suc (suc (twice n))

hex_encode-match_string :
    (bs : Bytes)
    → All IsByte bs
    → match_string (hex_digits (twice (length bs))) (hex_encode bs) ≡ true
unfolding match_string hex_digits hex_encode twice
hex_encode-match_string [] h = refl
hex_encode-match_string (b ∷ bs) h =
    rw (hex_digit-is_hex (b / 16) (omega arith), hex_digit-is_hex (b % 16) (omega arith))
      (hex_encode-match_string bs h.1)

hex_encode-IsPlain : (bs : Bytes) → All IsByte bs → All IsPlain (hex_encode bs)
unfolding hex_encode
hex_encode-IsPlain [] h = tt
hex_encode-IsPlain (b ∷ bs) h = (
  hex_digit-IsPlain (b / 16) (omega arith),
  (hex_digit-IsPlain (b % 16) (omega arith), hex_encode-IsPlain bs h.1),
)

dash_plain : IsPlain b'-'
unfolding is_space lower
dash_plain = (refl, refl)

-- Digits and a dash before the rest of the form.
group :
    (bs : Bytes) (ps : List Bool) (rest : Bytes)
    → All IsByte bs
    → (match_string ps rest ≡ true) × All IsPlain rest
    → (match_string
          (hex_digits (twice (length bs)) ++ (false ∷ ps))
          (hex_encode bs ++ (b'-' ∷ rest))
        ≡ true)
      × All IsPlain (hex_encode bs ++ (b'-' ∷ rest))
group bs ps rest h k = (
  match_string-append _ (false ∷ ps) (hex_encode bs) (b'-' ∷ rest) (hex_encode-match_string bs h)
      (unfold match_string in k.0),
  All-append IsPlain (hex_encode bs) (b'-' ∷ rest) (hex_encode-IsPlain bs h) (dash_plain, k.1),
)

-- Sixteen bytes, as `[16]byte` holds them.
module _ (b0 b1 b2 b3 b4 b5 b6 b7 b8 b9 b10 b11 b12 b13 b14 b15 : ℕ) where
  abbrev pub array : Bytes
  array = b0 ∷ b1 ∷ b2 ∷ b3 ∷ b4 ∷ b5 ∷ b6 ∷ b7 ∷ b8 ∷ b9 ∷ b10 ∷ b11 ∷ b12 ∷ b13 ∷ b14 ∷ b15 ∷ []

  print_uuid-form :
      All IsByte array
      → (match_string uuid_re (print_uuid array) ≡ true) × All IsPlain (print_uuid array)
  unfolding print_uuid uuid_re hex_digits twice
  print_uuid-form h =
      let last = b10 ∷ b11 ∷ b12 ∷ b13 ∷ b14 ∷ b15 ∷ [] in
      group (b0 ∷ b1 ∷ b2 ∷ b3 ∷ []) _ _ (omega arith) (
        group (b4 ∷ b5 ∷ []) _ _ (omega arith) (
          group (b6 ∷ b7 ∷ []) _ _ (omega arith) (
            group (b8 ∷ b9 ∷ []) _ _ (omega arith)
              (hex_encode-match_string last (omega arith), hex_encode-IsPlain last (omega arith)))))

  -- The thirteenth digit is the version.
  print_uuid_version : get_or (print_uuid array) 14 0 ≡ hex_digit (b6 / 16)
  unfolding print_uuid hex_encode
  print_uuid_version = refl

-- The text of generateUUID: of the form, in lower case, and of version 4.
pub generate_uuid-form :
    (b0 b1 b2 b3 b4 b5 b6 b7 b8 b9 b10 b11 b12 b13 b14 b15 : ℕ)
    → All IsByte (array b0 b1 b2 b3 b4 b5 b6 b7 b8 b9 b10 b11 b12 b13 b14 b15)
    → let t = generate_uuid (array b0 b1 b2 b3 b4 b5 b6 b7 b8 b9 b10 b11 b12 b13 b14 b15) in
      (match_string uuid_re t ≡ true) × (All IsPlain t) × (get_or t 14 0 ≡ b'4')
unfolding generate_uuid with_version
generate_uuid-form b0 b1 b2 b3 b4 b5 b6 b7 b8 b9 b10 b11 b12 b13 b14 b15 h =
    let version : bit_or (bit_and b6 0x0f) 0x40 ≡ b6 % 16 + 64 =
      rw (bit_and_0f b6 (omega arith)) (bit_or_40 (b6 % 16) (omega arith)) in
    let variant : bit_or (bit_and b8 0x3f) 0x80 ≡ b8 % 64 + 128 =
      rw (bit_and_3f b8 (omega arith)) (bit_or_variant (b8 % 64) (omega arith)) in
    let v = b6 % 16 + 64 in
    let w = b8 % 64 + 128 in
    let (m, p) =
      print_uuid-form b0 b1 b2 b3 b4 b5 v b7 w b9 b10 b11 b12 b13 b14 b15 (omega arith) in
    let digit : hex_digit (v / 16) ≡ b'4' =
      (let four : v / 16 ≡ 4 = omega arith in rw four (unfold hex_digit in refl)) in
    rw (version, variant)
      (m, p, print_uuid_version b0 b1 b2 b3 b4 b5 v b7 w b9 b10 b11 b12 b13 b14 b15 ∙ digit)
