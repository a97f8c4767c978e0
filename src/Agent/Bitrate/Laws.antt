-- ===== src/Agent/Bitrate/Laws.antt =====
-- What adaptiveBitrate.report keeps, and how the bitrate moves.
use oblireach.Base.{
  ℕ, zero, suc, ◌+◌, ◌*◌, ◌^◌, ◌<◌, ◌≤◌, ◌≡◌, ltb, if◌then◌else◌, inl, inr, Bool-cases, arith, List,
  [], ◌∷◌,
}
use oblireach.Agent.Bitrate.{
  AdaptiveBitrate, bitrate_min, bitrate_max, bitrate_window, step_up_mantissa, unit_of, round_to,
  step_up, adjust, clamp, report, reports, new_adaptive_bitrate,
}

-- The bitrate is within its bounds, and a window is not over.
pub record Within (ab : AdaptiveBitrate) : Type 0 where
  floor_kept : bitrate_min ≤ ab.current
  ceiling_kept : ab.current ≤ bitrate_max
  window_open : ab.total_frames < bitrate_window
  slow_counted : ab.slow_frames ≤ ab.total_frames

pub clamp_bounds : (n : ℕ) → (bitrate_min ≤ clamp n) × (clamp n ≤ bitrate_max)
unfolding clamp
clamp_bounds n = ground arith

pub clamp_fixed : (n : ℕ) → bitrate_min ≤ n → n ≤ bitrate_max → clamp n ≡ n
unfolding clamp
clamp_fixed n lo hi = ground arith

-- The state behind every report is within the bounds.
pub report-Within : (t : ℕ) (ab : AdaptiveBitrate) → Within ab → Within (report t ab).0
unfolding report
report-Within t ab w =
    let b = clamp_bounds (
      adjust (if ltb ab.budget t then ab.slow_frames + 1 else ab.slow_frames) (ab.total_frames + 1)
        ab.current) in
    elim (Bool-cases (ltb (ab.total_frames + 1) bitrate_window)) [
      | inl early ↦ record {
        floor_kept = ground arith;
        ceiling_kept = ground arith;
        window_open = ground arith;
        slow_counted = ground arith;
      }
      | inr over ↦ record {
        floor_kept = ground arith;
        ceiling_kept = ground arith;
        window_open = ground arith;
        slow_counted = ground arith;
      }
    ]

unit_of_pos : (fuel u p : ℕ) → 0 < u → 0 < unit_of fuel u p
unfolding unit_of
unit_of_pos zero u p h = h
unit_of_pos (suc fuel) u p h = ground (arith, unit_of_pos fuel (2 * u) p)

-- A number of at least 2 ^ 52 units stays one of at least 2 ^ 52 of the units chosen.
unit_of_small : (fuel u p : ℕ) → 2 ^ 52 * u ≤ p → 2 ^ 52 * unit_of fuel u p ≤ p
unfolding unit_of
unit_of_small zero u p h = h
unit_of_small (suc fuel) u p h = ground (arith, unit_of_small fuel (2 * u) p)

round_to_near : (u p : ℕ) → 0 < u → p ≤ round_to u p + u
unfolding round_to
round_to_near u p h = ground arith

-- A bitrate of at least the floor is raised by every step up.
pub step_up_grows : (n : ℕ) → bitrate_min ≤ n → n < step_up n
unfolding step_up
step_up_grows n h =
    let p = n * step_up_mantissa in
    let small = unit_of_small 64 1 p (omega arith) in
    let near = round_to_near (unit_of 64 1 p) p (unit_of_pos 64 1 p (omega arith)) in omega arith

round_to_above : (u p : ℕ) → 0 < u → round_to u p ≤ p + u
unfolding round_to
round_to_above u p h = ground arith

-- A step up is 1.4 times the bitrate, less one where the rounding goes down.
pub step_up_near :
    (n : ℕ)
    → bitrate_min ≤ n
    → n ≤ bitrate_max
    → (14 * n ≤ 10 * step_up n + 10) × (10 * step_up n ≤ 14 * n)
unfolding step_up
step_up_near n lo hi =
    let p = n * step_up_mantissa in
    let small = unit_of_small 64 1 p (omega arith) in
    let above = round_to_above (unit_of 64 1 p) p (unit_of_pos 64 1 p (omega arith)) in
    let near = round_to_near (unit_of 64 1 p) p (unit_of_pos 64 1 p (omega arith)) in
    (omega arith, omega arith)

-- A fresh state is within the bounds, and so is every state that a run of reports reaches from it.
pub reports-Within : (ts : List ℕ) (ab : AdaptiveBitrate) → Within ab → Within (reports ts ab)
unfolding reports
reports-Within [] ab w = w
reports-Within (t ∷ ts) ab w = reports-Within ts _ (report-Within t ab w)

pub new_adaptive_bitrate-Within : (fps : ℕ) → Within (new_adaptive_bitrate fps)
unfolding new_adaptive_bitrate
new_adaptive_bitrate-Within fps = record {
  floor_kept = omega arith;
  ceiling_kept = omega arith;
  window_open = omega arith;
  slow_counted = omega arith;
}
