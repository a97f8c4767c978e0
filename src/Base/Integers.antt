-- ===== src/Base/Integers.antt =====
-- Go's signed integers that the program reads from text.
use Prim.Native.Nat.{ℕ}
use mathlib.Core.Bool.{Bool, true}
use oblireach.Base.Numbers.{ltb}

-- `negsuc n` is -(n + 1).
pub data ℤ : Type 0 where
  pos : ℕ → ℤ
  negsuc : ℕ → ℤ

-- `now > z` for a time `now` that is not negative.
abbrev pub exceeds : ℕ → ℤ → Bool
exceeds now (pos e) = ltb e now
exceeds now (negsuc m) = true
