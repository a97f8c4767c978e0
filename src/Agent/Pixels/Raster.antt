-- ===== src/Agent/Pixels/Raster.antt =====
-- Counted loops, and two nested ones that write the cells of one or two planes: the loops of
-- bgraToI420 in agent/encode_openh264_windows.go.
use oblireach.Base.{
  ℕ, zero, suc, ◌+◌, ◌*◌, ◌≤◌, ◌<◌, ◌≡◌, ◌≢◌, refl, Option, none, some, Bytes, length, get_elem?,
  arith, ap, ◌∙◌,
}
use mathlib.Core.Path.{subst}
use native.Mathlib.Decide.{dec_lt}
use oblireach.Agent.Pixels.{◌>>=◌, for_below}

-- The rule of a counted loop: an invariant that each round keeps holds at the end.
pub for_below_inv :
    {S : Type 0} (P : ℕ → S → Type 0) (body : ℕ → S → Option S) (n : ℕ) (s : S)
    → ((i : ℕ) (t : S) → i < n → P i t → (u : S) × (body i t ≡ some u) × P (suc i) u)
    → P 0 s
    → (u : S) × (for_below n body s ≡ some u) × P n u
unfolding for_below
for_below_inv P body zero s keep start = (s, refl, start)
for_below_inv P body (suc n) s keep start =
    let (t, e, p) = for_below_inv P body n s (λ i t lt. keep i t (omega arith)) start in
    let (u, f, q) = keep n t (omega arith) p in (u, rw e f, q)

-- Two loops whose bodies agree below the bound.
pub for_below_agree :
    {S : Type 0} (body other : ℕ → S → Option S) (n : ℕ) (s : S)
    → ((i : ℕ) (t : S) → i < n → body i t ≡ other i t)
    → for_below n body s ≡ for_below n other s
unfolding for_below
for_below_agree body other zero s agree = refl
for_below_agree body other (suc n) s agree =
    rw (for_below_agree body other n s (λ i t lt. agree i t (omega arith)))
      (last (for_below n other s) (λ t. agree n t (omega arith)))
  where
    last : (o : Option _) → ((t : _) → body n t ≡ other n t) → (o >>= body n) ≡ (o >>= other n)
    last none h = refl
    last (some t) h = h t

row_below : (w r r' : ℕ) → r < r' → r * w + w ≤ r' * w
row_below w r r' h = grind arith

-- A place in the frame is a row and a column in one way.
pub index_unique :
    (w r c r' c' : ℕ) → c < w → c' < w → r * w + c ≡ r' * w + c' → (r ≡ r') × (c ≡ c')
index_unique w r c r' c' hc hc' e = elim (dec_lt r r') [
  | yes less ↦ absurd (omega (arith, row_below w r r' less))
  | no ge ↦ elim (dec_lt r' r) [
    | yes more ↦ absurd (omega (arith, row_below w r' r more))
    | no le ↦ let same : r ≡ r' = omega arith in (same, omega (arith, ap (λ (t : ℕ). t * w) same))
  ]
]

pub index_bound : (w h r c : ℕ) → r < h → c < w → r * w + c < h * w
index_bound w h r c hr hc = omega (arith, row_below w r h hr)

-- A body that writes two cells, the places of one pixel in two planes that start at `o1` and `o2`.
pub record Writes (body : Bytes → Option Bytes) (size at1 at2 v1 v2 : ℕ) (t : Bytes) : Type 0 where
  pub result : Bytes
  pub returns : body t ≡ some result
  pub size_kept : length result ≡ size
  pub first : get_elem? result at1 ≡ some v1
  pub second : get_elem? result at2 ≡ some v2
  pub others : (j : ℕ) → j ≢ at1 → j ≢ at2 → get_elem? result j ≡ get_elem? t j

pub Writes-at :
    {body : Bytes → Option Bytes} {size at1 at2 v1 v2 : ℕ} {t : Bytes} (p1 p2 : ℕ)
    → at1 ≡ p1
    → at2 ≡ p2
    → Writes body size at1 at2 v1 v2 t
    → Writes body size p1 p2 v1 v2 t
Writes-at {body} {size} {at1} {at2} {v1} {v2} {t} p1 p2 e1 e2 wr =
    subst (λ a. Writes body size a p2 v1 v2 t) e1
      (subst (λ b. Writes body size at1 b v1 v2 t) e2 wr)

module _ (w h o1 o2 size : ℕ) (val1 val2 : ℕ → ℕ → ℕ) (s : Bytes) where
  -- What the loop has reached when it stands before place `k`.
  pub record Reached (k : ℕ) (t : Bytes) : Type 0 where
    pub size_kept : length t ≡ size
    pub first : (r c : ℕ) → c < w → r * w + c < k → get_elem? t (o1 + (r * w + c)) ≡ some (val1 r c)
    pub second :
        (r c : ℕ) → c < w → r * w + c < k → get_elem? t (o2 + (r * w + c)) ≡ some (val2 r c)
    pub before : (j : ℕ) → j < o1 → get_elem? t j ≡ get_elem? s j

  module _ (body : ℕ → ℕ → Bytes → Option Bytes) (ordered : o1 ≤ o2)
      (apart : (k k' : ℕ) → k' < k → k < h * w → o2 + k' ≢ o1 + k)
      (writes : (row col : ℕ) (t : Bytes)
        → row < h
        → col < w
        → length t ≡ size
        → Writes
            (body row col)
            size
            (o1 + (row * w + col))
            (o2 + (row * w + col))
            (val1 row col)
            (val2 row col)
            t) where
    module _ (row col : ℕ) (t : Bytes) (hr : row < h) (hc : col < w) (p : Reached (row * w + col) t)
        (wr : Writes
          (body row col)
          size
          (o1 + (row * w + col))
          (o2 + (row * w + col))
          (val1 row col)
          (val2 row col)
          t) where
      first_kept :
          (r c : ℕ)
          → c < w
          → r * w + c < row * w + suc col
          → get_elem? wr.result (o1 + (r * w + c)) ≡ some (val1 r c)
      first_kept r c hc' lt = elim (dec_lt (r * w + c) (row * w + col)) [
        | yes older ↦
            wr.others _ (λ e. absurd (omega arith)) (λ e. absurd (omega arith))
            ∙ p.first r c hc' older
        | no new ↦
            let (er, ec) = index_unique w r c row col hc' hc (omega arith) in rw (er, ec) wr.first
      ]

      second_kept :
          (r c : ℕ)
          → c < w
          → r * w + c < row * w + suc col
          → get_elem? wr.result (o2 + (r * w + c)) ≡ some (val2 r c)
      second_kept r c hc' lt = elim (dec_lt (r * w + c) (row * w + col)) [
        | yes older ↦
            wr.others _ (apart _ _ older (index_bound w h row col hr hc))
              (λ e. absurd (omega arith))
            ∙ p.second r c hc' older
        | no new ↦
            let (er, ec) = index_unique w r c row col hc' hc (omega arith) in rw (er, ec) wr.second
      ]

      step-Reached : (u : Bytes) × (body row col t ≡ some u) × Reached (row * w + suc col) u
      step-Reached = (
        wr.result,
        wr.returns,
        record {
          size_kept = wr.size_kept;
          first = first_kept;
          second = second_kept;
          before = λ j lt.
              wr.others j (λ e. absurd (omega arith)) (λ e. absurd (omega arith)) ∙ p.before j lt;
        },
      )

    -- The two nested loops fill both planes.
    pub raster :
        length s ≡ size
        → (u : Bytes) × (for_below h (λ row. for_below w (λ col. body row col)) s ≡ some u)
          × Reached (h * w) u
    raster es =
        for_below_inv (λ row t. Reached (row * w) t) (λ row. for_below w (λ col. body row col)) h s
          (λ row t hr p.
            let (u, e, q) =
              for_below_inv (λ col x. Reached (row * w + col) x) (λ col. body row col) w t
                (λ col x hc q. step-Reached row col x hr hc q (writes row col x hr hc q.size_kept))
                (subst (λ k. Reached k t) (omega arith) p) in
            (u, e, subst (λ k. Reached k u) (grind arith) q))
          (record {
            size_kept = es;
            first = λ r c lt below. absurd (omega arith);
            second = λ r c lt below. absurd (omega arith);
            before = λ j lt. refl;
          })
