-- ===== src/Agent/StreamLoop/Steps/Examples.antt =====
-- The stream's loop at concrete inputs.
use oblireach.Base.{ℕ, ◌+◌, ◌<◌, ◌≤◌, ◌≡◌, refl, true, some, List, [], ◌∷◌, codes}
use oblireach.Agent.Encoders.{jpeg, opened}
use oblireach.Agent.StreamLoop.{
  keeps_empty, Stream, Event, idle_fired, warning_fired, input_received, codec_requested, frame_due,
  produced, inactivity_timeout, finish, send, timeout_message, reset_idle_timer,
}
use oblireach.Agent.StreamLoop.Steps.{open_stream, opened_stream, step, run}
use oblireach.Agent.StreamLoop.Steps.Bounds.{run-open_stream-Inv}
use oblireach.Agent.StreamLoop.Steps.Kept.{Inv}
use oblireach.Agent.StreamLoop.Steps.Timers.{idle_timeout}
use oblireach.Agent.StreamLoop.Steps.Quiet.{last_activity}

abbrev first : Stream
first = opened_stream 0 (2, 2) opened true

abbrev events : List (ℕ × Event)
events =
    (1000, input_received [])
    ∷ (2000, codec_requested (codes "vp9") opened)
    ∷ (3000, frame_due (some (2, 2)) (produced (7 ∷ [])) 0 0 (some 5))
    ∷ []

abbrev quiet : List (ℕ × Event)
quiet = (1000, input_received []) ∷ (2000, warning_fired) ∷ []

run-open_stream-Inv_example : Inv (run events first)
unfolding open_stream
run-open_stream-Inv_example = run-open_stream-Inv 0 (some (2, 2)) opened true true first events refl

idle_timeout_example :
    ((900 < last_activity 0 quiet + inactivity_timeout)
      → (step 900 idle_fired (run quiet first) ≡ run quiet first))
    × ((last_activity 0 quiet + inactivity_timeout ≤ 900)
        → (step 900 idle_fired (run quiet first) ≡ finish (send timeout_message (run quiet first))))
unfolding run step opened_stream reset_idle_timer
idle_timeout_example = idle_timeout 900 0 (2, 2) opened true quiet refl

empty_jpeg_sent : keeps_empty jpeg ≡ true
unfolding keeps_empty
empty_jpeg_sent = refl
