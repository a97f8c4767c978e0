-- ===== src/Base/Bits.antt =====
-- Masks and exclusive or on bytes, checked on every byte.
use Prim.Native.Nat.{ℕ, zero, suc, ◌+◌, ◌*◌, ◌/◌, ◌%◌, ◌<◌, bit_and, bit_or, bit_xor}
use mathlib.Core.Path.{◌≡◌, refl}
use mathlib.Core.Bool.{Bool, true, ◌&&◌}
use native.Mathlib.Omega.{arith}
use oblireach.Base.Numbers.{◌==◌, ltb, ==_iff}

-- A test on all numbers below a bound.
every_below : ℕ → (ℕ → Bool) → Bool
every_below zero p = true
every_below (suc n) p = p n && every_below n p

every_below_sound : (n : ℕ) (p : ℕ → Bool) (i : ℕ) → every_below n p ≡ true → i < n → p i ≡ true
unfolding every_below
every_below_sound zero p i h lt = absurd (omega arith)
every_below_sound (suc n) p i h lt = ground (arith, every_below_sound n p i)

mask_low_bits : every_below 256 (λ x. bit_and x 0x0f == x % 16) ≡ true
unfolding every_below
mask_low_bits = refl

pub bit_and_0f : (x : ℕ) → x < 256 → bit_and x 0x0f ≡ x % 16
bit_and_0f x h = (==_iff _ _).0 (every_below_sound 256 _ x mask_low_bits h)

mask_seven_bits : every_below 256 (λ x. bit_and x 0x7f == x % 128) ≡ true
unfolding every_below
mask_seven_bits = refl

pub bit_and_7f : (x : ℕ) → x < 256 → bit_and x 0x7f ≡ x % 128
bit_and_7f x h = (==_iff _ _).0 (every_below_sound 256 _ x mask_seven_bits h)

mask_top_bit : every_below 256 (λ x. bit_and x 0x80 == x / 128 * 128) ≡ true
unfolding every_below
mask_top_bit = refl

pub bit_and_80 : (x : ℕ) → x < 256 → bit_and x 0x80 ≡ x / 128 * 128
bit_and_80 x h = (==_iff _ _).0 (every_below_sound 256 _ x mask_top_bit h)

set_top_bit : every_below 128 (λ x. bit_or 0x80 x == x + 128) ≡ true
unfolding every_below
set_top_bit = refl

pub bit_or_80 : (x : ℕ) → x < 128 → bit_or 0x80 x ≡ x + 128
bit_or_80 x h = (==_iff _ _).0 (every_below_sound 128 _ x set_top_bit h)

mask_six_bits : every_below 256 (λ x. bit_and x 0x3f == x % 64) ≡ true
unfolding every_below
mask_six_bits = refl

pub bit_and_3f : (x : ℕ) → x < 256 → bit_and x 0x3f ≡ x % 64
bit_and_3f x h = (==_iff _ _).0 (every_below_sound 256 _ x mask_six_bits h)

set_version : every_below 16 (λ x. bit_or x 0x40 == x + 64) ≡ true
unfolding every_below
set_version = refl

pub bit_or_40 : (x : ℕ) → x < 16 → bit_or x 0x40 ≡ x + 64
bit_or_40 x h = (==_iff _ _).0 (every_below_sound 16 _ x set_version h)

set_variant : every_below 64 (λ x. bit_or x 0x80 == x + 128) ≡ true
unfolding every_below
set_variant = refl

pub bit_or_variant : (x : ℕ) → x < 64 → bit_or x 0x80 ≡ x + 128
bit_or_variant x h = (==_iff _ _).0 (every_below_sound 64 _ x set_variant h)

xor_table :
    every_below 256
      (λ k. every_below 256 (λ x. (bit_xor (bit_xor x k) k == x) && ltb (bit_xor x k) 256))
    ≡ true
unfolding every_below
xor_table = refl

-- Masking a byte twice gives the byte, and a masked byte is a byte.
pub xor_twice : (x k : ℕ) → x < 256 → k < 256 → (bit_xor (bit_xor x k) k ≡ x) × (bit_xor x k < 256)
xor_twice x k hx hk =
    let row = every_below_sound 256 _ k xor_table hk in
    let cell = every_below_sound 256 _ x row hx in ground (arith, cell)
