-- ===== src/Agent/Pixels/Examples.antt =====
-- The planes of a frame of two rows of two pixels.
use oblireach.Base.{ℕ, zero, suc, ◌-◌, ◌<◌, ◌≤◌, ◌≡◌, refl, some, [], ◌∷◌, Bytes, arith}
use oblireach.Agent.Pixels.{
  for_below, write_at, luma, blueness, redness, shifted, mean, store_luma, store_chroma, clamp_luma,
  clamp_byte, luma_rows, chroma_rows, planes, wrap_planes,
}
use oblireach.Agent.Pixels.Planes.{luma_of, blueness_of, redness_of}
use oblireach.Agent.Pixels.Filled.{Holds, planes_filled}
use oblireach.Agent.Pixels.Wrapping.{FitsByte, wrap_planes-planes, grey_wraps}

-- Blue, green and red, and a grey pixel.
abbrev pub frame : Bytes
frame = 255 ∷ 0 ∷ 0 ∷ 255 ∷ 0 ∷ 255 ∷ 0 ∷ 255 ∷ 0 ∷ 0 ∷ 255 ∷ 255 ∷ 100 ∷ 100 ∷ 100 ∷ 255 ∷ []

abbrev buffer : Bytes
buffer = 0 ∷ 0 ∷ 0 ∷ 0 ∷ 0 ∷ 0 ∷ []

converted : planes frame 2 2 buffer ≡ some (45 ∷ 165 ∷ 93 ∷ 116 ∷ 128 ∷ 128 ∷ [])
unfolding planes luma_rows chroma_rows for_below store_luma store_chroma mean write_at luma blueness
    redness shifted clamp_luma clamp_byte
converted = refl

planes_filled_example : (u : Bytes) × (planes frame 2 2 buffer ≡ some u) × Holds frame 2 2 u
planes_filled_example = planes_filled frame 2 2 buffer refl refl

not_bright_here : (row col : ℕ) → row < 2 → col < 2 → luma_of frame 2 row col ≤ 235
unfolding luma
not_bright_here zero zero hr hc = omega arith
not_bright_here zero (suc zero) hr hc = omega arith
not_bright_here (suc zero) zero hr hc = omega arith
not_bright_here (suc zero) (suc zero) hr hc = omega arith
not_bright_here zero (suc (suc c)) hr hc = absurd (omega arith)
not_bright_here (suc zero) (suc (suc c)) hr hc = absurd (omega arith)
not_bright_here (suc (suc r)) c hr hc = absurd (omega arith)

not_blue_here : (row col : ℕ) → row < 1 → col < 1 → FitsByte (blueness_of frame 2 row col)
unfolding blueness shifted
not_blue_here zero zero hr hc = omega arith
not_blue_here zero (suc c) hr hc = absurd (omega arith)
not_blue_here (suc r) c hr hc = absurd (omega arith)

not_red_here : (row col : ℕ) → row < 1 → col < 1 → FitsByte (redness_of frame 2 row col)
unfolding redness shifted
not_red_here zero zero hr hc = omega arith
not_red_here zero (suc c) hr hc = absurd (omega arith)
not_red_here (suc r) c hr hc = absurd (omega arith)

wrap_planes-planes_example : wrap_planes frame 2 2 buffer ≡ planes frame 2 2 buffer
wrap_planes-planes_example =
    wrap_planes-planes frame 2 2 buffer refl
      (record { not_bright = not_bright_here; not_blue = not_blue_here; not_red = not_red_here })

grey_wraps_example :
    (planes (250 ∷ 250 ∷ 250 ∷ 255 ∷ []) 1 1 (0 ∷ []) ≡ some (235 ∷ []))
    × (wrap_planes (250 ∷ 250 ∷ 250 ∷ 255 ∷ []) 1 1 (0 ∷ []) ≡ some ((250 - 240) ∷ []))
grey_wraps_example = grey_wraps 250 255 0 (omega arith) (omega arith)
