-- ===== src/Agent/Pixels.antt =====
-- Screen pixels turned into the planes that the encoders read: bgraToI420 of
-- agent/encode_openh264_windows.go, and the C routine bgra_to_i420 of agent/encode_windows.go.
-- `none` is an index out of range: a panic in Go, an access outside the buffer in C.
use oblireach.Base.{
  ℕ, zero, suc, ◌+◌, ◌-◌, ◌*◌, ◌/◌, ◌%◌, ◌≡◌, Option, none, some, Bytes, length, get_elem?, set,
  ltb, leb, if◌then◌else◌, ℤ, pos, negsuc,
}
pub mod Examples
pub mod Raster
pub mod Planes
pub mod Filled
pub mod Wrapping

infixl 5 ◌>>=◌
abbrev pub ◌>>=◌ : {A B : Type 0} → Option A → (A → Option B) → Option B
none >>= f = none
some a >>= f = f a

-- `for i := 0; i < n; i++ { body }`
unfoldable pub for_below : {S : Type 0} → ℕ → (ℕ → S → Option S) → S → Option S
for_below zero body s = some s
for_below (suc n) body s = for_below n body s >>= body n

-- `dst[i] = v`
unfoldable pub write_at : ℕ → ℕ → Bytes → Option Bytes
write_at i v dst = if ltb i (length dst) then some (set dst i v) else none

-- a - b, as an integer.
abbrev pub difference : ℕ → ℕ → ℤ
difference a b = if leb b a then pos (a - b) else negsuc (b - a - 1)

-- `x >> 8` on a signed integer, which rounds down, and 128 added.
unfoldable pub shifted : ℤ → ℤ
shifted (pos n) = pos (n / 256 + 128)
shifted (negsuc n) = if leb (n / 256) 127 then pos (127 - n / 256) else negsuc (n / 256 - 128)

-- `if u < 0 { u = 0 } else if u > 255 { u = 255 }`
unfoldable pub clamp_byte : ℤ → ℕ
clamp_byte (pos n) = if ltb 255 n then 255 else n
clamp_byte (negsuc n) = 0

-- `(unsigned char)x`
unfoldable pub to_byte : ℤ → ℕ
to_byte (pos n) = n % 256
to_byte (negsuc n) = 255 - n % 256

unfoldable pub luma : ℕ → ℕ → ℕ → ℕ
luma b g r = (77 * r + 150 * g + 29 * b + 128) / 256 + 16

unfoldable pub blueness : ℕ → ℕ → ℕ → ℤ
blueness b g r = shifted (difference (128 * b + 128) (43 * r + 85 * g))

unfoldable pub redness : ℕ → ℕ → ℕ → ℤ
redness b g r = shifted (difference (128 * r + 128) (107 * g + 21 * b))

-- The sum of four bytes, `>> 2`.
unfoldable pub mean : Bytes → ℕ → ℕ → Option ℕ
mean bgra s0 s1 = do
  p ← get_elem? bgra s0
  q ← get_elem? bgra (s0 + 4)
  r ← get_elem? bgra s1
  t ← get_elem? bgra (s1 + 4)
  some ((p + q + r + t) / 4)

module _ (bgra : Bytes) where
  -- The Y byte of a pixel, and the U and V bytes of a block of four, as both routines store them
  -- up to the last conversion.
  unfoldable pub store_luma : (ℕ → ℕ) → ℕ → ℕ → Bytes → Option Bytes
  store_luma convert off at dst = do
    b ← get_elem? bgra off
    g ← get_elem? bgra (off + 1)
    r ← get_elem? bgra (off + 2)
    write_at at (convert (luma b g r)) dst

  unfoldable pub store_chroma : (ℤ → ℕ) → ℕ → ℕ → ℕ → ℕ → Bytes → Option Bytes
  store_chroma convert s0 s1 at_u at_v dst = do
    b ← mean bgra s0 s1
    g ← mean bgra (s0 + 1) (s1 + 1)
    r ← mean bgra (s0 + 2) (s1 + 2)
    dst' ← write_at at_u (convert (blueness b g r)) dst
    write_at at_v (convert (redness b g r)) dst'

-- `if y > 235 { y = 235 }`
unfoldable pub clamp_luma : ℕ → ℕ
clamp_luma y = if ltb 235 y then 235 else y

module _ (bgra : Bytes) (w h : ℕ) where
  unfoldable pub luma_rows : Bytes → Option Bytes
  luma_rows =
      for_below h
        λ row. for_below w λ col. store_luma bgra clamp_luma ((row * w + col) * 4) (row * w + col)

  unfoldable pub chroma_rows : Bytes → Option Bytes
  chroma_rows = for_below (h / 2) λ row. for_below (w / 2) λ col.
      store_chroma bgra clamp_byte (row * 2 * w * 4 + col * 2 * 4)
        ((row * 2 + 1) * w * 4 + col * 2 * 4) (w * h + row * (w / 2) + col)
        (w * h + (w / 2) * (h / 2) + row * (w / 2) + col)

  -- bgraToI420
  unfoldable pub planes : Bytes → Option Bytes
  planes dst = luma_rows dst >>= chroma_rows

  -- The C routine. It walks the rows by pointers, and narrows to a byte in place of clamping.
  unfoldable pub wrap_luma_rows : ℕ → Bytes → Option Bytes
  wrap_luma_rows y_plane = for_below h λ row.
      for_below w
        λ col. store_luma bgra (λ y. y % 256) (row * (w * 4) + col * 4) (y_plane + row * w + col)

  unfoldable pub wrap_chroma_rows : ℕ → ℕ → Bytes → Option Bytes
  wrap_chroma_rows u_plane v_plane = for_below (h / 2) λ row. for_below (w / 2) λ col.
      store_chroma bgra to_byte (row * 2 * (w * 4) + col * 2 * 4)
        ((row * 2 + 1) * (w * 4) + col * 2 * 4) (u_plane + row * (w / 2) + col)
        (v_plane + row * (w / 2) + col)

  -- bgra_to_i420, on the buffer that holds the three planes, as encode_frame calls it.
  unfoldable pub wrap_planes : Bytes → Option Bytes
  wrap_planes dst = wrap_luma_rows 0 dst >>= wrap_chroma_rows (w * h) (w * h + (w / 2) * (h / 2))
