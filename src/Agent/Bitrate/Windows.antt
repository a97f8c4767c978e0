-- ===== src/Agent/Bitrate/Windows.antt =====
-- What a whole window of adaptiveBitrate.report does to the bitrate.
use oblireach.Base.{
  ℕ, ◌+◌, ◌*◌, ◌/◌, ◌<◌, ◌≤◌, ◌≡◌, ◌⊎◌, refl, ltb, if◌then◌else◌, arith, List, [], ◌∷◌, ◌++◌,
  length, inl, inr, Bool-cases,
}
use oblireach.Agent.Bitrate.{
  AdaptiveBitrate, bitrate_min, bitrate_max, bitrate_window, step_up, step_down, adjust, clamp,
  report, reports, count_slow,
}
use oblireach.Agent.Bitrate.Laws.{step_up_grows, step_up_near, clamp_bounds}

report_early :
    (t : ℕ) (ab : AdaptiveBitrate)
    → ab.total_frames + 1 < bitrate_window
    → (report t ab).0 ≡ record {
      current = ab.current;
      slow_frames = if ltb ab.budget t then ab.slow_frames + 1 else ab.slow_frames;
      total_frames = ab.total_frames + 1;
      budget = ab.budget;
    }
unfolding report
report_early t ab h = ground arith

-- Fewer reports than end a window are only counted.
fill_window :
    (ts : List ℕ) (ab : AdaptiveBitrate)
    → ab.total_frames + length ts < bitrate_window
    → ((reports ts ab).current ≡ ab.current)
      × (((reports ts ab).slow_frames ≡ ab.slow_frames + count_slow ab.budget ts)
          × (((reports ts ab).total_frames ≡ ab.total_frames + length ts)
              × ((reports ts ab).budget ≡ ab.budget)))
unfolding reports count_slow
fill_window [] ab h = ground arith
fill_window (t ∷ ts) ab h =
    rw (reports, report_early t ab (omega arith))
      (let ih =
          fill_window ts
            (record {
              current = ab.current;
              slow_frames = if ltb ab.budget t then ab.slow_frames + 1 else ab.slow_frames;
              total_frames = ab.total_frames + 1;
              budget = ab.budget;
            })
            (omega arith) in
        elim (Bool-cases (ltb ab.budget t)) [ inl slow ↦ ground arith | inr fast ↦ ground arith ])

report_last :
    (t : ℕ) (ab : AdaptiveBitrate)
    → ab.total_frames ≡ 14
    → (report t ab).0 ≡ record {
      current =
          clamp (adjust (ab.slow_frames + count_slow ab.budget (t ∷ [])) bitrate_window ab.current);
      slow_frames = 0;
      total_frames = 0;
      budget = ab.budget;
    }
unfolding report count_slow
report_last t ab h = ground arith

reports-append_last :
    (ts : List ℕ) (t : ℕ) (ab : AdaptiveBitrate)
    → reports (ts ++ (t ∷ [])) ab ≡ (report t (reports ts ab)).0
unfolding reports
reports-append_last [] t ab = refl
reports-append_last (x ∷ ts) t ab = reports-append_last ts t _

window_adjusts :
    (ts : List ℕ) (t : ℕ) (ab : AdaptiveBitrate)
    → ab.total_frames ≡ 0
    → ab.slow_frames ≡ 0
    → length ts ≡ 14
    → reports (ts ++ (t ∷ [])) ab ≡ record {
      current = clamp (
          adjust
            (count_slow ab.budget ts + count_slow ab.budget (t ∷ []))
            bitrate_window
            ab.current);
      slow_frames = 0;
      total_frames = 0;
      budget = ab.budget;
    }
window_adjusts ts t ab hz hs hl =
    let filled = fill_window ts ab (omega arith) in
    rw
      (
        reports-append_last ts t ab,
        report_last t (reports ts ab) (omega arith),
        filled.0,
        filled.1.0,
        filled.1.1.1,
        hs,
      )
      (ground arith)

-- One slow frame in five keeps the bitrate from being halved, and one in fifteen from being raised:
-- with no slow frame among 15 it grows or stays at the ceiling; with four or more it is halved or
-- stays at the floor; between them it stays.
pub adjust_window :
    (slow n : ℕ)
    → bitrate_min ≤ n
    → n ≤ bitrate_max
    → ((slow ≡ 0) → (n < bitrate_max) → n < clamp (adjust slow bitrate_window n))
      × (((3 < slow)
            → (clamp (adjust slow bitrate_window n)
                ≡ (if ltb (n / 2) bitrate_min then bitrate_min else n / 2)))
          × ((0 < slow) → (slow ≤ 3) → (clamp (adjust slow bitrate_window n) ≡ n)))
unfolding adjust clamp step_down
adjust_window slow n lo hi =
    let grows = step_up_grows n lo in
    ((λ h k. ground arith), ((λ h. ground arith), (λ h k. ground arith)))

raised :
    (slow n : ℕ)
    → bitrate_min ≤ n
    → n ≤ bitrate_max
    → slow ≡ 0
    → let m = clamp (adjust slow bitrate_window n) in
      ((14 * n ≤ 10 * m + 10) ⊎ (m ≡ bitrate_max)) × (10 * m ≤ 14 * n)
unfolding adjust clamp
raised slow n lo hi h =
    let near = step_up_near n lo hi in
    let grows = step_up_grows n lo in
    elim (Bool-cases (ltb bitrate_max (step_up n))) [
      | inl over ↦ (inr (ground arith), ground arith)
      | inr under ↦ (inl (ground arith), ground arith)
    ]

slow_split :
    (budget t : ℕ) (ts : List ℕ)
    → count_slow budget (ts ++ (t ∷ [])) ≡ count_slow budget ts + count_slow budget (t ∷ [])
unfolding count_slow
slow_split budget t [] = omega arith
slow_split budget t (x ∷ ts) =
    let rest = slow_split budget t ts in
    elim (Bool-cases (ltb budget x)) [
      | inl slow ↦ rw slow (omega (arith, rest))
      | inr fast ↦ rw fast rest
    ]

-- The 15 reports of a window, taken from its start with a bitrate within the bounds, start a new
-- window and leave the bitrate within the bounds. With no slow frame among them it is multiplied by
-- 1.4, with at most one bit per second lost to rounding, up to the ceiling; with four or more it is
-- halved, but not below the floor; with one to three it stays.
pub reports_window :
    (ts : List ℕ) (t : ℕ) (ab : AdaptiveBitrate)
    → ab.total_frames ≡ 0
    → ab.slow_frames ≡ 0
    → length ts ≡ 14
    → 1000000 ≤ ab.current
    → ab.current ≤ 100000000
    → let slow = count_slow ab.budget (ts ++ (t ∷ [])) in
      let ab' = reports (ts ++ (t ∷ [])) ab in
      (ab'.slow_frames ≡ 0)
      × (ab'.total_frames ≡ 0)
      × (ab'.budget ≡ ab.budget)
      × (1000000 ≤ ab'.current)
      × (ab'.current ≤ 100000000)
      × ((slow ≡ 0)
          → ((14 * ab.current ≤ 10 * ab'.current + 10) ⊎ (ab'.current ≡ 100000000))
            × (10 * ab'.current ≤ 14 * ab.current))
      × ((3 < slow)
          → ab'.current ≡ (if ltb (ab.current / 2) 1000000 then 1000000 else ab.current / 2))
      × ((0 < slow) → (slow ≤ 3) → ab'.current ≡ ab.current)
reports_window ts t ab hz hs hl lo hi =
    let slow = count_slow ab.budget ts + count_slow ab.budget (t ∷ []) in
    let bounds = clamp_bounds (adjust slow bitrate_window ab.current) in
    let moves = adjust_window slow ab.current lo hi in
    rw (window_adjusts ts t ab hz hs hl, slow_split ab.budget t ts)
      (
        refl,
        refl,
        refl,
        bounds.0,
        bounds.1,
        (λ h. raised slow ab.current lo hi h),
        moves.1.0,
        moves.1.1,
      )
