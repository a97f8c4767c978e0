-- ===== src/Base/Text.antt =====
-- Go strings and byte slices: lists of byte values.
use Prim.Native.Nat.{ℕ, ◌+◌, ◌<◌}
use Prim.Native.Char.{code}
use Prim.Native.String.{String}
use mathlib.Core.Path.{◌≡◌, refl}
use mathlib.Core.Logic.{◌↔◌}
use mathlib.Core.Bool.{Bool, true, false, ◌&&◌, ◌||◌}
use mathlib.Core.Option.{Option, none, some}
use mathlib.Core.List.{List, [], ◌∷◌, ◌++◌, reverse, append-nil}
use native.Mathlib.Omega.{arith}
use oblireach.Base.Numbers.{◌==◌, if◌then◌else◌}
use oblireach.Base.Lists.{length}

abbrev pub Bytes : Type 0
Bytes = List ℕ

abbrev pub IsByte : ℕ → Type 0
IsByte b = b < 256

-- The bytes of an ASCII literal.
abbrev pub codes : String → Bytes
codes String.[] = []
codes (String.◌∷◌ c s) = code c ∷ codes s

-- `s == t` on strings.
unfoldable pub text_eq : Bytes → Bytes → Bool
text_eq [] [] = true
text_eq [] (b ∷ t) = false
text_eq (a ∷ s) [] = false
text_eq (a ∷ s) (b ∷ t) = a == b && text_eq s t

pub text_eq_iff : (s t : Bytes) → (text_eq s t ≡ true) ↔ (s ≡ t)
unfolding text_eq
text_eq_iff [] [] = ground arith
text_eq_iff [] (b ∷ t) = ground arith
text_eq_iff (a ∷ s) [] = ground arith
text_eq_iff (a ∷ s) (b ∷ t) = ground (arith, text_eq_iff s t)

pub text_eq_refl : (s : Bytes) → text_eq s s ≡ true
text_eq_refl s = (text_eq_iff s s).1 refl

-- `s == ""`
unfoldable pub is_empty : Bytes → Bool
is_empty [] = true
is_empty (a ∷ s) = false

-- strings.HasPrefix, with what follows the prefix.
unfoldable pub strip_prefix : Bytes → Bytes → Option Bytes
strip_prefix [] s = some s
strip_prefix (p ∷ ps) [] = none
strip_prefix (p ∷ ps) (a ∷ s) = if p == a then strip_prefix ps s else none

pub strip_prefix-append : (p s : Bytes) → strip_prefix p (p ++ s) ≡ some s
unfolding strip_prefix
strip_prefix-append [] s = refl
strip_prefix-append (p ∷ ps) s = ground (arith, strip_prefix-append ps s)

pub strip_prefix_lem : (p s r : Bytes) → strip_prefix p s ≡ some r → s ≡ p ++ r
unfolding strip_prefix
strip_prefix_lem [] s r e = cc
strip_prefix_lem (p ∷ ps) [] r e = cc
strip_prefix_lem (p ∷ ps) (a ∷ s) r e = ground (arith, strip_prefix_lem ps s r)

-- strings.Contains with a pattern of one byte.
unfoldable pub has_byte : ℕ → Bytes → Bool
has_byte c [] = false
has_byte c (a ∷ s) = a == c || has_byte c s

pub has_byte-append : (c : ℕ) (s t : Bytes) → has_byte c (s ++ t) ≡ (has_byte c s || has_byte c t)
unfolding has_byte
has_byte-append c [] t = refl
has_byte-append c (a ∷ s) t = ground (arith, has_byte-append c s t)

-- Drops a leading run of one byte.
unfoldable pub trim_left : ℕ → Bytes → Bytes
trim_left c [] = []
trim_left c (a ∷ s) = if a == c then trim_left c s else a ∷ s

-- strings.TrimRight with a cutset of one byte.
unfoldable pub trim_right : ℕ → Bytes → Bytes
unfolding trim_left
trim_right c s = reverse (trim_left c (reverse s))

-- strings.Split by one byte: the part before the first separator, and the parts after it.
abbrev pub Parts : Type 0
Parts = Bytes × List Bytes

unfoldable pub split_parts : ℕ → Bytes → Parts
split_parts c [] = ([], [])
split_parts c (a ∷ s) =
    let rest = split_parts c s in if a == c then ([], rest.0 ∷ rest.1) else (a ∷ rest.0, rest.1)

-- strings.Split
unfoldable pub split : ℕ → Bytes → List Bytes
unfolding split_parts
split c s = let p = split_parts c s in p.0 ∷ p.1

abbrev pub join_rest : ℕ → List Bytes → Bytes
join_rest c [] = []
join_rest c (p ∷ ps) = c ∷ (p ++ join_rest c ps)

-- A part with no separator ends at the next one.
pub split_parts-append :
    (c : ℕ) (p s : Bytes)
    → has_byte c p ≡ false
    → split_parts c (p ++ (c ∷ s)) ≡ (p, (split_parts c s).0 ∷ (split_parts c s).1)
unfolding split_parts has_byte
split_parts-append c [] s h = ground arith
split_parts-append c (a ∷ p) s h = ground (arith, split_parts-append c p s)

pub split_parts_whole : (c : ℕ) (p : Bytes) → has_byte c p ≡ false → split_parts c p ≡ (p, [])
unfolding split_parts has_byte
split_parts_whole c [] h = refl
split_parts_whole c (a ∷ p) h = ground (arith, split_parts_whole c p)

-- The parts, joined again, are the text.
pub split_parts_join :
    (c : ℕ) (s : Bytes) → (split_parts c s).0 ++ join_rest c (split_parts c s).1 ≡ s
unfolding split_parts
split_parts_join c [] = refl
split_parts_join c (a ∷ s) = ground (arith, split_parts_join c s)

-- Cutting a text that is put together cuts both parts.
pub split_parts_count :
    (c : ℕ) (s t : Bytes)
    → length (split_parts c (s ++ t)).1 ≡ length (split_parts c s).1 + length (split_parts c t).1
unfolding split_parts
split_parts_count c [] t = omega arith
split_parts_count c (a ∷ s) t = ground (arith, split_parts_count c s t)

pub split_parts_pos : (c : ℕ) (s : Bytes) → has_byte c s ≡ true → 0 < length (split_parts c s).1
unfolding split_parts has_byte
split_parts_pos c [] h = absurd (cc)
split_parts_pos c (a ∷ s) h = ground (arith, split_parts_pos c s)

-- No part holds the separator.
pub split_parts_head : (c : ℕ) (s : Bytes) → has_byte c (split_parts c s).0 ≡ false
unfolding split_parts has_byte
split_parts_head c [] = refl
split_parts_head c (a ∷ s) = ground (arith, split_parts_head c s)

-- Each separator starts one more part.
pub split_parts_sep :
    (c : ℕ) (s : Bytes) → length (split_parts c (c ∷ s)).1 ≡ length (split_parts c s).1 + 1
unfolding split_parts
split_parts_sep c s = ground arith

-- A text that is cut in three is its three parts with the separators between them.
pub split_three_join :
    (c : ℕ) (s p q r : Bytes) → split c s ≡ p ∷ q ∷ r ∷ [] → s ≡ p ++ (c ∷ (q ++ (c ∷ r)))
unfolding split
split_three_join c s p q r e = ground (arith, split_parts_join c s, append-nil r)

pub split_head : (c : ℕ) (s p : Bytes) (r : List Bytes) → split c s ≡ p ∷ r → has_byte c p ≡ false
unfolding split
split_head c s p r e = ground (arith, split_parts_head c s)
