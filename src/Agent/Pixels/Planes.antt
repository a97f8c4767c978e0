-- ===== src/Agent/Pixels/Planes.antt =====
-- The planes of bgraToI420 (agent/encode_openh264_windows.go), cell by cell.
use oblireach.Base.{
  ℕ, zero, suc, ◌+◌, ◌*◌, ◌/◌, ◌<◌, ◌≡◌, refl, sym, ◌∙◌, some, Bytes, [], ◌∷◌, length, get_elem?,
  get_or, set, ℤ, length-set, get_elem?-set_self, get_elem?-set_ne, arith,
}
use oblireach.Agent.Pixels.{
  ◌>>=◌, write_at, luma, blueness, redness, mean, store_luma, store_chroma,
}
use oblireach.Agent.Pixels.Raster.{Writes, index_bound}

get_elem?-some : (xs : Bytes) (i : ℕ) → i < length xs → get_elem? xs i ≡ some (get_or xs i 0)
get_elem?-some [] i h = absurd (omega arith)
get_elem?-some (x ∷ xs) zero h = refl
get_elem?-some (x ∷ xs) (suc i) h = get_elem?-some xs i (omega arith)

write_at_in : (i v : ℕ) (t : Bytes) → i < length t → write_at i v t ≡ some (set t i v)
unfolding write_at
write_at_in i v t h = ground arith

module _ (bgra : Bytes) (w : ℕ) where
  -- A channel of the pixel at a row and a column: 0 is blue, 1 green, 2 red.
  abbrev pub channel : ℕ → ℕ → ℕ → ℕ
  channel k row col = get_or bgra (4 * (row * w + col) + k) 0

  -- The mean of a channel over the block of two rows and two columns.
  abbrev pub block : ℕ → ℕ → ℕ → ℕ
  block k row col =
      (channel k (2 * row) (2 * col)
        + channel k (2 * row) (2 * col + 1)
        + channel k (2 * row + 1) (2 * col)
        + channel k (2 * row + 1) (2 * col + 1))
      / 4

  abbrev pub luma_of : ℕ → ℕ → ℕ
  luma_of row col = luma (channel 0 row col) (channel 1 row col) (channel 2 row col)

  abbrev pub blueness_of : ℕ → ℕ → ℤ
  blueness_of row col = blueness (block 0 row col) (block 1 row col) (block 2 row col)

  abbrev pub redness_of : ℕ → ℕ → ℤ
  redness_of row col = redness (block 0 row col) (block 1 row col) (block 2 row col)

read_channel :
    (bgra : Bytes) (w h row col k i : ℕ)
    → length bgra ≡ w * h * 4
    → row < h
    → col < w
    → k < 4
    → i ≡ 4 * (row * w + col) + k
    → get_elem? bgra i ≡ some (channel bgra w k row col)
read_channel bgra w h row col k i size hr hc hk e = rw e (
    get_elem?-some bgra (4 * (row * w + col) + k)
      (let area : w * h ≡ h * w = grind arith in omega (arith, index_bound w h row col hr hc)))

module _ (bgra : Bytes) (w h : ℕ) (size : length bgra ≡ w * h * 4) where
  pub store_luma_lem :
      (convert : ℕ → ℕ) (off at row col : ℕ) (t : Bytes)
      → row < h
      → col < w
      → off ≡ 4 * (row * w + col)
      → store_luma bgra convert off at t ≡ write_at at (convert (luma_of bgra w row col)) t
  unfolding store_luma
  store_luma_lem convert off at row col t hr hc e =
      rw
        (
          read_channel bgra w h row col 0 off size hr hc (omega arith) (omega arith),
          read_channel bgra w h row col 1 (off + 1) size hr hc (omega arith) (omega arith),
          read_channel bgra w h row col 2 (off + 2) size hr hc (omega arith) (omega arith),
        )
        refl

  pub store_luma-Writes :
      (convert : ℕ → ℕ) (off at row col n : ℕ) (t : Bytes)
      → row < h
      → col < w
      → off ≡ 4 * (row * w + col)
      → length t ≡ n
      → at < n
      → Writes
          (store_luma bgra convert off at)
          n
          at
          at
          (convert (luma_of bgra w row col))
          (convert (luma_of bgra w row col))
          t
  store_luma-Writes convert off at row col n t hr hc e en fits =
      let v = convert (luma_of bgra w row col) in
      record {
        result = set t at v;
        returns =
            store_luma_lem convert off at row col t hr hc e ∙ write_at_in at v t (omega arith);
        size_kept = length-set t at v ∙ en;
        first = get_elem?-set_self t at v (omega arith);
        second = get_elem?-set_self t at v (omega arith);
        others = λ j h1 h2. get_elem?-set_ne t at j v (λ e. h1 (sym e));
      }

  read_block :
      (row col k s0 s1 : ℕ)
      → row < h / 2
      → col < w / 2
      → k < 4
      → s0 ≡ 4 * (2 * row * w + 2 * col) + k
      → s1 ≡ 4 * ((2 * row + 1) * w + 2 * col) + k
      → mean bgra s0 s1 ≡ some (block bgra w k row col)
  unfolding mean
  read_block row col k s0 s1 hr hc hk e0 e1 =
      rw
        (
          read_channel bgra w h (2 * row) (2 * col) k s0 size (omega arith) (omega arith) hk e0,
          read_channel bgra w h (2 * row) (2 * col + 1) k (s0 + 4) size (omega arith) (omega arith)
              hk (omega arith),
          read_channel bgra w h (2 * row + 1) (2 * col) k s1 size (omega arith) (omega arith) hk e1,
          read_channel bgra w h (2 * row + 1) (2 * col + 1) k (s1 + 4) size (omega arith)
              (omega arith) hk (omega arith),
        )
        refl

  pub store_chroma_lem :
      (convert : ℤ → ℕ) (s0 s1 at_u at_v row col : ℕ) (t : Bytes)
      → row < h / 2
      → col < w / 2
      → s0 ≡ 4 * (2 * row * w + 2 * col)
      → s1 ≡ 4 * ((2 * row + 1) * w + 2 * col)
      → store_chroma bgra convert s0 s1 at_u at_v t ≡ (
          write_at at_u (convert (blueness_of bgra w row col)) t
          >>= write_at at_v (convert (redness_of bgra w row col)))
  unfolding store_chroma
  store_chroma_lem convert s0 s1 at_u at_v row col t hr hc e0 e1 =
      rw
        (
          read_block row col 0 s0 s1 hr hc (omega arith) (omega arith) (omega arith),
          read_block row col 1 (s0 + 1) (s1 + 1) hr hc (omega arith) (omega arith) (omega arith),
          read_block row col 2 (s0 + 2) (s1 + 2) hr hc (omega arith) (omega arith) (omega arith),
        )
        refl

  pub store_chroma-Writes :
      (convert : ℤ → ℕ) (s0 s1 at_u at_v row col n : ℕ) (t : Bytes)
      → row < h / 2
      → col < w / 2
      → s0 ≡ 4 * (2 * row * w + 2 * col)
      → s1 ≡ 4 * ((2 * row + 1) * w + 2 * col)
      → length t ≡ n
      → at_u < at_v
      → at_v < n
      → Writes
          (store_chroma bgra convert s0 s1 at_u at_v)
          n
          at_u
          at_v
          (convert (blueness_of bgra w row col))
          (convert (redness_of bgra w row col))
          t
  store_chroma-Writes convert s0 s1 at_u at_v row col n t hr hc e0 e1 en order fits =
      let u = convert (blueness_of bgra w row col) in
      let v = convert (redness_of bgra w row col) in
      let t' = set t at_u u in
      let n' = length-set t at_u u in
      record {
        result = set t' at_v v;
        returns =
            store_chroma_lem convert s0 s1 at_u at_v row col t hr hc e0 e1
            ∙ rw (write_at_in at_u u t (omega arith)) (write_at_in at_v v t' (omega arith));
        size_kept = length-set t' at_v v ∙ n' ∙ en;
        first =
            get_elem?-set_ne t' at_v at_u v (λ e. absurd (omega arith))
            ∙ get_elem?-set_self t at_u u (omega arith);
        second = get_elem?-set_self t' at_v v (omega arith);
        others = λ j h1 h2.
            get_elem?-set_ne t' at_v j v (λ e. h2 (sym e))
            ∙ get_elem?-set_ne t at_u j u (λ e. h1 (sym e));
      }
