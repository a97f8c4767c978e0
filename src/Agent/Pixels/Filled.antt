-- ===== src/Agent/Pixels/Filled.antt =====
-- What bgraToI420 (agent/encode_openh264_windows.go) leaves in the buffer, and the range of its
-- bytes.
use oblireach.Base.{ℕ, ◌+◌, ◌*◌, ◌/◌, ◌<◌, ◌≡◌, ◌∙◌, some, Bytes, length, get_elem?, arith, ap}
use oblireach.Agent.Pixels.{
  store_luma, store_chroma, clamp_luma, clamp_byte, luma_rows, chroma_rows, planes,
}
use oblireach.Agent.Pixels.Raster.{Reached, Writes-at, raster, index_bound}
use oblireach.Agent.Pixels.Planes.{
  luma_of, blueness_of, redness_of, store_luma-Writes, store_chroma-Writes,
}

-- The three planes of a frame, in the buffer one behind the other.
pub record Holds (bgra : Bytes) (w h : ℕ) (u : Bytes) : Type 0 where
  pub size_kept : length u ≡ w * h + 2 * ((w / 2) * (h / 2))
  pub y_plane :
      (row col : ℕ)
      → row < h
      → col < w
      → get_elem? u (row * w + col) ≡ some (clamp_luma (luma_of bgra w row col))
  pub u_plane :
      (row col : ℕ)
      → row < h / 2
      → col < w / 2
      → get_elem? u (w * h + (row * (w / 2) + col)) ≡ some (clamp_byte (blueness_of bgra w row col))
  pub v_plane :
      (row col : ℕ)
      → row < h / 2
      → col < w / 2
      → get_elem? u (w * h + (w / 2) * (h / 2) + (row * (w / 2) + col))
        ≡ some (clamp_byte (redness_of bgra w row col))

module _ (bgra : Bytes) (w h : ℕ) (dst : Bytes) (size : length bgra ≡ w * h * 4)
    (room : length dst ≡ w * h + 2 * ((w / 2) * (h / 2))) where
  abbrev total : ℕ
  total = w * h + 2 * ((w / 2) * (h / 2))

  abbrev y_of : ℕ → ℕ → ℕ
  y_of row col = clamp_luma (luma_of bgra w row col)

  abbrev u_of : ℕ → ℕ → ℕ
  u_of row col = clamp_byte (blueness_of bgra w row col)

  abbrev v_of : ℕ → ℕ → ℕ
  v_of row col = clamp_byte (redness_of bgra w row col)

  luma_rows_lem :
      (t : Bytes) × (luma_rows bgra w h dst ≡ some t)
      × Reached w h 0 0 total y_of y_of dst (h * w) t
  unfolding luma_rows
  luma_rows_lem =
      raster w h 0 0 total y_of y_of dst
        (λ row col. store_luma bgra clamp_luma ((row * w + col) * 4) (row * w + col)) (omega arith)
        (λ k k' lt bound e. absurd (omega arith))
        (λ row col t hr hc et.
          Writes-at (0 + (row * w + col)) (0 + (row * w + col)) (omega arith) (omega arith) (
            store_luma-Writes bgra w h size clamp_luma ((row * w + col) * 4) (row * w + col) row col
              total t hr hc (omega arith) et
              (let area : w * h ≡ h * w = grind arith in
                omega (arith, index_bound w h row col hr hc))))
        room

  chroma_rows_lem :
      (t : Bytes)
      → length t ≡ total
      → (u : Bytes) × (chroma_rows bgra w h t ≡ some u)
        × Reached
            (w / 2)
            (h / 2)
            (w * h)
            (w * h + (w / 2) * (h / 2))
            total
            u_of
            v_of
            t
            (h / 2 * (w / 2))
            u
  unfolding chroma_rows
  chroma_rows_lem t et =
      let area : (w / 2) * (h / 2) ≡ (h / 2) * (w / 2) = grind arith in
      raster (w / 2) (h / 2) (w * h) (w * h + (w / 2) * (h / 2)) total u_of v_of t
        (λ row col.
          store_chroma bgra clamp_byte (row * 2 * w * 4 + col * 2 * 4)
            ((row * 2 + 1) * w * 4 + col * 2 * 4) (w * h + row * (w / 2) + col)
            (w * h + (w / 2) * (h / 2) + row * (w / 2) + col))
        (omega arith) (λ k k' lt bound e. absurd (omega arith))
        (λ row col x hr hc ex.
          Writes-at (w * h + (row * (w / 2) + col))
            (w * h + (w / 2) * (h / 2) + (row * (w / 2) + col)) (omega arith) (omega arith)
            (store_chroma-Writes bgra w h size clamp_byte (row * 2 * w * 4 + col * 2 * 4)
              ((row * 2 + 1) * w * 4 + col * 2 * 4) (w * h + row * (w / 2) + col)
              (w * h + (w / 2) * (h / 2) + row * (w / 2) + col) row col total x hr hc (grind arith)
              (grind arith) ex (omega (arith, index_bound (w / 2) (h / 2) row col hr hc))
              (omega (arith, index_bound (w / 2) (h / 2) row col hr hc))))
        et

  -- On a frame of w × h pixels and a buffer of the size that the encoders allocate, no index is out
  -- of range, and each plane holds at each place the converted pixel, or the converted mean of the
  -- block of four pixels; an odd last row or column enters no block.
  pub planes_filled : (u : Bytes) × (planes bgra w h dst ≡ some u) × Holds bgra w h u
  unfolding planes
  planes_filled =
      let (t, e, p) = luma_rows_lem in
      let (u, f, q) = chroma_rows_lem t p.size_kept in
      let area : w * h ≡ h * w = grind arith in
      (
        u,
        rw e f,
        record {
          size_kept = q.size_kept;
          y_plane = λ row col hr hc.
              let at : row * w + col ≡ 0 + (row * w + col) = omega arith in
              q.before (row * w + col) (omega (arith, index_bound w h row col hr hc))
              ∙ ap (get_elem? t) at
              ∙ p.first row col hc (index_bound w h row col hr hc);
          u_plane = λ row col hr hc. q.first row col hc (index_bound _ _ row col hr hc);
          v_plane = λ row col hr hc. q.second row col hc (index_bound _ _ row col hr hc);
        },
      )
