-- ===== src/Agent/Libraries.antt =====
-- The encoder libraries that the agent loads at run time: the C parts and the Go wrappers of
-- agent/encode_vp9_windows.go, encode_openh264_windows.go, encode_h265_windows.go and
-- encode_av1_windows.go. What the libraries and Windows answer is an argument of each call.
use oblireach.Base.{
  ℕ, zero, suc, ◌+◌, ◌*◌, ◌/◌, ◌%◌, ◌^◌, take, Bool, true, false, ◌&&◌, ◌||◌, not, Option, none,
  some, List, [], ◌∷◌, ◌++◌, Bytes, codes, length, leb, if◌then◌else◌,
}
mod Examples
pub mod Loading
pub mod Packets
pub mod Vp9
pub mod OpenH264
pub mod H265
pub mod Av1
pub mod Process
pub mod Lifecycle
pub mod FrameSafety

-- LoadLibraryA by a name, LoadLibraryA beside the executable (false without a path), and
-- GetProcAddress for a symbol.
pub record Loader : Type 0 where
  pub by_name : Bytes → Bool
  pub beside : Bytes → Bool
  pub exports : Bytes → Bool

-- 0, or the negative code of a failure by its amount.
pub data Code : Type 0 where
  success : Code
  failure : ℕ → Code

unfoldable pub is_success : Code → Bool
is_success success = true
is_success (failure n) = false

unfoldable pub any_of : (Bytes → Bool) → List Bytes → Bool
any_of p [] = false
any_of p (x ∷ xs) = p x || any_of p xs

unfoldable pub all_of : (Bytes → Bool) → List Bytes → Bool
all_of p [] = true
all_of p (x ∷ xs) = p x && all_of p xs

-- The names are tried in order, first alone and then beside the executable.
unfoldable pub finds : Loader → List Bytes → Bool
finds l names = any_of l.by_name names || any_of l.beside names

-- width*height + 2*(width/2)*(height/2)
unfoldable pub i420_size : ℕ → ℕ → ℕ
i420_size w h = w * h + 2 * ((w / 2) * (h / 2))

abbrev pub max_buf : ℕ
max_buf = 4 * 1024 * 1024

-- What an encode function of a wrapper does: `panicked` is an index out of range in Go, `overran` a
-- copy past the end of a plane in C.
pub data Encoded : Type 0 where
  panicked overran : Encoded
  nothing : Encoded
  packet : Bytes → Encoded
  not_initialised : Encoded
  failed : ℕ → Encoded

-- The result of an encode in C: a negative code by its amount, or the bytes in the buffer.
pub data Written : Type 0 where
  wrote : Bytes → Written
  refused : ℕ → Written
  past_end : Written

-- `int sz = (int)size; if (total + sz <= out_cap) { memcpy(out + total, ...); total += sz; }` over the
-- packets. The size keeps its low 32 bits. A sum from 2 ^ 31 on is negative, or sz is: the test lets
-- it pass, and the copy runs past the end.
unfoldable pub pack : ℕ → Bytes → List Bytes → Written
pack cap out [] = wrote out
pack cap out (p ∷ ps) =
    let size = length p % 2 ^ 32 in
    let rest = pack cap (if leb (length out + size) cap then out ++ take size p else out) ps in
    if leb (2 ^ 31) (length out + size) then past_end else rest

-- `if n < 0 {...}; if n == 0 {...}; out := make([]byte, n); copy(out, buf[:n])`
unfoldable pub wrap : Written → Encoded
wrap (refused n) = failed n
wrap past_end = overran
wrap (wrote []) = nothing
wrap (wrote (b ∷ bs)) = packet (b ∷ bs)

-- make([]byte, n)
unfoldable pub zeroed : ℕ → Bytes
zeroed zero = []
zeroed (suc n) = 0 ∷ zeroed n
