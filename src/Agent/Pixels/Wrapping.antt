-- ===== src/Agent/Pixels/Wrapping.antt =====
-- The C routine bgra_to_i420 (agent/encode_windows.go) against bgraToI420
-- (agent/encode_openh264_windows.go): they differ only in how a value becomes a byte.
use oblireach.Base.{
  ℕ, ◌+◌, ◌-◌, ◌*◌, ◌/◌, ◌%◌, ◌≤◌, ◌<◌, ◌≡◌, refl, sym, ◌∙◌, some, Bytes, [], ◌∷◌, true, length,
  ltb, ℤ, pos, negsuc, arith, ap,
}
use mathlib.Core.Path.{fun_ext}
use oblireach.Agent.Pixels.{
  ◌>>=◌, write_at, for_below, luma, store_luma, clamp_luma, clamp_byte, to_byte, luma_rows,
  chroma_rows, planes, wrap_luma_rows, wrap_chroma_rows, wrap_planes,
}
use oblireach.Agent.Pixels.Raster.{for_below_agree}
use oblireach.Agent.Pixels.Planes.{
  luma_of, blueness_of, redness_of, store_luma_lem, store_chroma_lem,
}

-- A value that a byte can hold, which neither conversion changes.
abbrev pub FitsByte : ℤ → Type 0
FitsByte (pos n) = n < 256
FitsByte (negsuc n) = ⊥

clamp_byte-eq-to_byte : (z : ℤ) → FitsByte z → clamp_byte z ≡ to_byte z
unfolding clamp_byte to_byte
clamp_byte-eq-to_byte (pos n) h = ground arith
clamp_byte-eq-to_byte (negsuc n) h = absurd h

-- No pixel is too bright and no block too blue or too red for the planes.
pub record Unsaturated (bgra : Bytes) (w h : ℕ) : Type 0 where
  pub not_bright : (row col : ℕ) → row < h → col < w → luma_of bgra w row col ≤ 235
  pub not_blue : (row col : ℕ) → row < h / 2 → col < w / 2 → FitsByte (blueness_of bgra w row col)
  pub not_red : (row col : ℕ) → row < h / 2 → col < w / 2 → FitsByte (redness_of bgra w row col)

luma_convert : (y : ℕ) → y ≤ 235 → clamp_luma y ≡ y % 256
unfolding clamp_luma
luma_convert y h = ground arith

luma_rows_agree :
    (bgra : Bytes) (w h : ℕ) (dst : Bytes)
    → length bgra ≡ w * h * 4
    → Unsaturated bgra w h
    → luma_rows bgra w h dst ≡ wrap_luma_rows bgra w h 0 dst
unfolding luma_rows wrap_luma_rows
luma_rows_agree bgra w h dst size ok = for_below_agree _ _ h dst λ row s hr.
    for_below_agree _ _ w s λ col t hc.
      let at : row * w + col ≡ 0 + row * w + col = omega arith in
      store_luma_lem bgra w h size clamp_luma ((row * w + col) * 4) (row * w + col) row col t hr hc
        (omega arith)
      ∙ rw (luma_convert _ (ok.not_bright row col hr hc), at) refl
      ∙ sym (
          store_luma_lem bgra w h size (λ y. y % 256) (row * (w * 4) + col * 4) (0 + row * w + col)
            row col t hr hc (grind arith))

chroma_rows_agree :
    (bgra : Bytes) (w h : ℕ) (dst : Bytes)
    → length bgra ≡ w * h * 4
    → Unsaturated bgra w h
    → chroma_rows bgra w h dst ≡ wrap_chroma_rows bgra w h (w * h) (w * h + (w / 2) * (h / 2)) dst
unfolding chroma_rows wrap_chroma_rows
chroma_rows_agree bgra w h dst size ok = for_below_agree _ _ (h / 2) dst λ row s hr.
    for_below_agree _ _ (w / 2) s λ col t hc.
      store_chroma_lem bgra w h size clamp_byte (row * 2 * w * 4 + col * 2 * 4)
        ((row * 2 + 1) * w * 4 + col * 2 * 4) (w * h + row * (w / 2) + col)
        (w * h + (w / 2) * (h / 2) + row * (w / 2) + col) row col t hr hc (grind arith)
        (grind arith)
      ∙ rw
          (
            clamp_byte-eq-to_byte _ (ok.not_blue row col hr hc),
            clamp_byte-eq-to_byte _ (ok.not_red row col hr hc),
          )
          refl
      ∙ sym (
          store_chroma_lem bgra w h size to_byte (row * 2 * (w * 4) + col * 2 * 4)
            ((row * 2 + 1) * (w * 4) + col * 2 * 4) (w * h + row * (w / 2) + col)
            (w * h + (w / 2) * (h / 2) + row * (w / 2) + col) row col t hr hc (grind arith)
            (grind arith))

-- On a frame without saturated pixels the C routine, which walks the rows by pointers and narrows
-- each value to a byte, does to any buffer what bgraToI420 does.
pub wrap_planes-planes :
    (bgra : Bytes) (w h : ℕ) (dst : Bytes)
    → length bgra ≡ w * h * 4
    → Unsaturated bgra w h
    → wrap_planes bgra w h dst ≡ planes bgra w h dst
unfolding wrap_planes planes
wrap_planes-planes bgra w h dst size ok = rw (← luma_rows_agree bgra w h dst size ok) (
    ap (λ f. luma_rows bgra w h dst >>= f)
      (fun_ext (λ t. sym (chroma_rows_agree bgra w h t size ok))))

luma_grey : (v : ℕ) → luma v v v ≡ v + 16
unfolding luma
luma_grey v = omega arith

-- A frame of one grey pixel at least 240 bright: bgraToI420 stores the brightest luma, 235, and the
-- C routine stores a luma below 16, which is black.
pub grey_wraps :
    (v a d : ℕ)
    → 240 ≤ v
    → v < 256
    → (planes (v ∷ v ∷ v ∷ a ∷ []) 1 1 (d ∷ []) ≡ some (235 ∷ []))
      × (wrap_planes (v ∷ v ∷ v ∷ a ∷ []) 1 1 (d ∷ []) ≡ some ((v - 240) ∷ []))
unfolding planes wrap_planes luma_rows chroma_rows wrap_luma_rows wrap_chroma_rows for_below
    store_luma write_at clamp_luma
grey_wraps v a d h k = (
  rw (luma_grey v, (let big : ltb 235 (v + 16) ≡ true = ground arith in big)) refl,
  rw (luma_grey v, (let low : (v + 16) % 256 ≡ v - 240 = omega arith in low)) refl,
)
