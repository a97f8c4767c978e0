-- ===== src/Base/Decimal.antt =====
-- strconv.FormatInt on numbers that are not negative, fmt.Sscanf("%d") and strconv.Atoi.
use Prim.Native.Nat.{ℕ, zero, suc, ◌+◌, ◌-◌, ◌*◌, ◌/◌, ◌%◌, ◌^◌, ◌<◌}
use mathlib.Core.Path.{◌≡◌, refl, ap, ◌∙◌}
use mathlib.Core.Bool.{Bool, true, false, ◌&&◌, ◌||◌}
use mathlib.Core.Option.{Option, none, some}
use mathlib.Core.List.{[], ◌∷◌, ◌++◌, append_assoc, append-nil}
use native.Mathlib.Omega.{arith}
use oblireach.Base.Numbers.{ltb, leb, ◌==◌, if◌then◌else◌, Bool-cases}
use mathlib.Core.Logic.{inl, inr}
use oblireach.Base.Integers.{ℤ, pos, negsuc}
use oblireach.Base.Text.{Bytes, has_byte, has_byte-append}

unfoldable pub is_digit : ℕ → Bool
is_digit c = leb b'0' c && leb c b'9'

-- The decimal digits of a number below 10 ^ (k + 1), most significant first.
unfoldable pub digits_upto : ℕ → ℕ → Bytes
digits_upto zero n = (b'0' + n % 10) ∷ []
digits_upto (suc k) n =
    let rest = digits_upto k (n / 10) in
    if ltb n 10 then (b'0' + n) ∷ [] else rest ++ ((b'0' + n % 10) ∷ [])

-- An int64 that is not negative has at most 19 digits.
unfoldable pub format_int : ℕ → Bytes
format_int n = digits_upto 18 n

-- Reads leading digits into an accumulator.
unfoldable pub scan_digits : ℕ → Bytes → ℕ
unfolding is_digit
scan_digits acc [] = acc
scan_digits acc (c ∷ s) = if is_digit c then scan_digits (acc * 10 + (c - b'0')) s else acc

-- The range of int64; a value out of range is an error.
unfoldable pub to_int64 : Bool → ℕ → Option ℤ
to_int64 false m = if ltb m (2 ^ 63) then some (pos m) else none
to_int64 true zero = some (pos 0)
to_int64 true (suc m) = if ltb m (2 ^ 63) then some (negsuc m) else none

-- The number behind the sign: one digit at least; what follows the digits is left unread.
unfoldable pub scan_unsigned : Bool → Bytes → Option ℤ
unfolding scan_digits to_int64
scan_unsigned negative [] = none
scan_unsigned negative (c ∷ s) =
    if is_digit c then to_int64 negative (scan_digits 0 (c ∷ s)) else none

unfoldable pub scan_signed : Bytes → Option ℤ
unfolding scan_unsigned
scan_signed [] = none
scan_signed (c ∷ s) =
    if c == b'-'
    then scan_unsigned true s
    else if c == b'+'
    then scan_unsigned false s
    else scan_unsigned false (c ∷ s)

-- Sscanf skips blanks, a carriage return with or without a line feed behind it among them, and stops
-- with an error at a line feed; only ASCII blanks are read as such.
abbrev is_blank : ℕ → Bool
is_blank c = c == b' ' || (c == 9 || (c == 11 || (c == 12 || c == 13)))

unfoldable pub scan_int : Bytes → Option ℤ
unfolding scan_signed
scan_int [] = none
scan_int (c ∷ s) = if is_blank c then scan_int s else scan_signed (c ∷ s)

-- strconv.Atoi reads the whole text.
unfoldable pub all_digits : Bytes → Bool
unfolding is_digit
all_digits [] = true
all_digits (c ∷ s) = is_digit c && all_digits s

unfoldable pub atoi : Bytes → Option ℤ
unfolding scan_signed all_digits
atoi [] = none
atoi (c ∷ s) =
    if all_digits s && (is_digit c || (c == b'-' || c == b'+')) then scan_signed (c ∷ s) else none

-- The digits that are printed start with a digit.
pub digits_upto_head :
    (k n : ℕ) → (c : ℕ) × (r : Bytes) × (digits_upto k n ≡ c ∷ r) × (is_digit c ≡ true)
unfolding digits_upto is_digit
digits_upto_head zero n = (b'0' + n % 10, [], refl, ground arith)
digits_upto_head (suc k) n = elim (Bool-cases (ltb n 10)) [
  | inl small ↦ (b'0' + n, [], ground arith, ground arith)
  | inr big ↦
      let (c, r, e, d) = digits_upto_head k (n / 10) in
      (c, r ++ ((b'0' + n % 10) ∷ []), ground (arith, e), d)
]

-- Reading what was printed gives the number, and goes on behind it.
pub scan_digits-digits_upto :
    (k n : ℕ) (t : Bytes) → n < 10 ^ suc k → scan_digits 0 (digits_upto k n ++ t) ≡ scan_digits n t
unfolding digits_upto scan_digits
scan_digits-digits_upto zero n t h = ground arith
scan_digits-digits_upto (suc k) n t h = ground (
  arith,
  append_assoc (digits_upto k (n / 10)) ((b'0' + n % 10) ∷ []) t,
  scan_digits-digits_upto k (n / 10) ((b'0' + n % 10) ∷ t) (omega arith),
)

-- A printed number holds digits only.
pub has_byte-digits_upto : (c k n : ℕ) → is_digit c ≡ false → has_byte c (digits_upto k n) ≡ false
unfolding digits_upto is_digit has_byte
has_byte-digits_upto c zero n h = ground arith
has_byte-digits_upto c (suc k) n h = ground (
  arith,
  has_byte-append c (digits_upto k (n / 10)) ((b'0' + n % 10) ∷ []),
  has_byte-digits_upto c k (n / 10) h,
)

pub has_byte-format_int : (c n : ℕ) → is_digit c ≡ false → has_byte c (format_int n) ≡ false
unfolding format_int
has_byte-format_int c n h = has_byte-digits_upto c 18 n h

scan_digits-nil : (n : ℕ) → scan_digits n [] ≡ n
unfolding scan_digits
scan_digits-nil n = refl

-- A text that starts with a digit is read as a number with no sign.
scan_int_digits :
    (c : ℕ) (r : Bytes)
    → is_digit c ≡ true
    → scan_int (c ∷ r) ≡ to_int64 false (scan_digits 0 (c ∷ r))
unfolding scan_int is_digit
scan_int_digits c r h = ground arith

scan_digits-format_int : (n : ℕ) → n < 2 ^ 63 → scan_digits 0 (format_int n) ≡ n
unfolding format_int
scan_digits-format_int n h =
    rw (append-nil (digits_upto 18 n)) at (scan_digits-digits_upto 18 n [] (omega arith))
    ∙ scan_digits-nil n

-- Sscanf reads back what FormatInt wrote.
pub scan_int-format_int : (n : ℕ) → n < 2 ^ 63 → scan_int (format_int n) ≡ some (pos n)
unfolding format_int
scan_int-format_int n h =
    let (c, r, e, d) = digits_upto_head 18 n in
    rw e (scan_int_digits c r d)
    ∙ ap (to_int64 false) (rw e at (scan_digits-format_int n h))
    ∙ (unfold to_int64 in ground arith)
