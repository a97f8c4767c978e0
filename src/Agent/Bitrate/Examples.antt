-- ===== src/Agent/Bitrate/Examples.antt =====
-- The adaptive bitrate at concrete inputs.
use oblireach.Base.{
  if◌then◌else◌, ltb, ◌/◌, ◌<◌, ◌≤◌, ◌*◌, ◌+◌, ◌⊎◌, arith, ℕ, ◌≡◌, refl, List, [], ◌∷◌, ◌++◌,
}
use oblireach.Agent.Bitrate.{
  AdaptiveBitrate, new_adaptive_bitrate, unit_of, round_to, step_up, adjust, clamp, report, reports,
  count_slow,
}
use oblireach.Agent.Bitrate.Windows.{reports_window}

-- 20 Mbit/s and a budget of a thirtieth of a second.
abbrev fresh : AdaptiveBitrate
fresh = new_adaptive_bitrate 30

abbrev fast_frames : List ℕ
fast_frames = 1 ∷ 1 ∷ 1 ∷ 1 ∷ 1 ∷ 1 ∷ 1 ∷ 1 ∷ 1 ∷ 1 ∷ 1 ∷ 1 ∷ 1 ∷ 1 ∷ []

raised : step_up 20000000 ≡ 28000000
unfolding step_up unit_of round_to
raised = refl

reports_fast : (reports (fast_frames ++ (1 ∷ [])) fresh).current ≡ 28000000
unfolding reports report adjust clamp step_up unit_of round_to new_adaptive_bitrate
reports_fast = refl

reports_window_example :
    let slow = count_slow fresh.budget (fast_frames ++ (1 ∷ [])) in
    let ab' = reports (fast_frames ++ (1 ∷ [])) fresh in
    (ab'.slow_frames ≡ 0)
    × (ab'.total_frames ≡ 0)
    × (ab'.budget ≡ fresh.budget)
    × (1000000 ≤ ab'.current)
    × (ab'.current ≤ 100000000)
    × ((slow ≡ 0)
        → ((14 * fresh.current ≤ 10 * ab'.current + 10) ⊎ (ab'.current ≡ 100000000))
          × (10 * ab'.current ≤ 14 * fresh.current))
    × ((3 < slow)
        → ab'.current ≡ (if ltb (fresh.current / 2) 1000000 then 1000000 else fresh.current / 2))
    × ((0 < slow) → (slow ≤ 3) → ab'.current ≡ fresh.current)
unfolding new_adaptive_bitrate
reports_window_example =
    reports_window fast_frames 1 fresh refl refl refl (omega arith) (omega arith)
