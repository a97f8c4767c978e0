-- ===== src/Agent/Bitrate.antt =====
-- The adaptive bitrate of a stream: adaptiveBitrate of agent/stream.go. A product with a float64
-- constant is rounded to 53 bits, halves to even, before it is truncated to an int.
use oblireach.Base.{
  List, [], ◌∷◌, ℕ, zero, suc, ◌+◌, ◌*◌, ◌/◌, ◌%◌, ◌^◌, Bool, true, false, ltb, ◌==◌, ◌||◌, ◌&&◌,
  if◌then◌else◌,
}
mod Examples
pub mod Laws
pub mod Windows

abbrev pub bitrate_min : ℕ
bitrate_min = 1000000

abbrev pub bitrate_max : ℕ
bitrate_max = 100000000

abbrev pub bitrate_start : ℕ
bitrate_start = 20000000

abbrev pub bitrate_window : ℕ
bitrate_window = 15

-- The float64 next to 1.40 is this number over 2 ^ 52; 0.50 is exact.
abbrev pub step_up_mantissa : ℕ
step_up_mantissa = 6305039478318694

-- Times are in nanoseconds.
pub record AdaptiveBitrate : Type 0 where
  current : ℕ
  slow_frames : ℕ
  total_frames : ℕ
  budget : ℕ

pub new_adaptive_bitrate : ℕ → AdaptiveBitrate
new_adaptive_bitrate fps = record {
  current = bitrate_start;
  slow_frames = 0;
  total_frames = 0;
  budget = 1000000000 / fps;
}

-- The unit in the last place of a 53-bit result: the power of two that leaves the number below
-- 2 ^ 53 units; the products here have at most 80 bits.
unit_of : ℕ → ℕ → ℕ → ℕ
unit_of zero u p = u
unit_of (suc fuel) u p = let rest = unit_of fuel (2 * u) p in if ltb p (2 ^ 53 * u) then u else rest

-- Rounds to a multiple of the unit, a half to the even one.
round_to : ℕ → ℕ → ℕ
round_to u p =
    let q = p / u in
    let r = p % u in if ltb u (2 * r) || (2 * r == u && q % 2 == 1) then (q + 1) * u else q * u

-- int(float64(n) * bitrateStepUp)
pub step_up : ℕ → ℕ
step_up n = let p = n * step_up_mantissa in round_to (unit_of 64 1 p) p / 2 ^ 52

-- int(float64(n) * bitrateStepDown)
pub step_down : ℕ → ℕ
step_down n = n / 2

-- slowRatio > 0.2 is 5 * slow > total on totals of a window, slowRatio < 0.05 is 20 * slow < total.
pub adjust : ℕ → ℕ → ℕ → ℕ
adjust slow total current =
    if ltb total (5 * slow)
    then step_down current
    else if ltb (20 * slow) total
    then step_up current
    else current

pub clamp : ℕ → ℕ
clamp n =
    let m = if ltb n bitrate_min then bitrate_min else n in
    if ltb bitrate_max m then bitrate_max else m

-- One frame's send time: the state behind it, and the new bitrate, 0 when it is not changed.
pub report : ℕ → AdaptiveBitrate → AdaptiveBitrate × ℕ
report send_time ab =
    let total = ab.total_frames + 1 in
    let slow = if ltb ab.budget send_time then ab.slow_frames + 1 else ab.slow_frames in
    let next = clamp (adjust slow total ab.current) in
    if ltb total bitrate_window
    then (
      record { current = ab.current; slow_frames = slow; total_frames = total; budget = ab.budget },
      0,
    )
    else (
      record { current = next; slow_frames = 0; total_frames = 0; budget = ab.budget },
      if next == ab.current then 0 else next,
    )

-- A run of reports.
pub reports : List ℕ → AdaptiveBitrate → AdaptiveBitrate
reports [] ab = ab
reports (t ∷ ts) ab = reports ts (report t ab).0

-- The number of send times over the budget.
pub count_slow : ℕ → List ℕ → ℕ
count_slow budget [] = 0
count_slow budget (t ∷ ts) =
    let rest = count_slow budget ts in if ltb budget t then rest + 1 else rest
