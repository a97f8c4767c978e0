-- ===== src/Agent/StreamLoop/Steps/Warnings.antt =====
-- How often a stream warns of inactivity.
use oblireach.Base.{
  ℕ, ◌+◌, ◌/◌, ◌≤◌, ◌≡◌, refl, Bool, false, none, some, List, [], ◌∷◌, leb, ◌&&◌, not,
  if◌then◌else◌, Bool-cases, inl, inr, arith,
}
use oblireach.Agent.Encoders.{Attempt}
use oblireach.Agent.StreamLoop.{
  inactivity_warning, init_message, codec_switch, warning_message, timeout_message,
  input_block_status, Stream, Event, stop_closed, warning_fired, idle_fired, block_requested,
  input_received, monitor_requested, codec_requested, frame_due, send, finish, reset_idle_timer,
}
use oblireach.Agent.StreamLoop.Steps.{opened_stream, set_encoders, on_monitor, on_codec, step, run}
use oblireach.Agent.StreamLoop.Steps.Timers.{run_nil, run_on, run_off}
use oblireach.Agent.StreamLoop.Steps.Quiet.{
  is_activity, activities, warnings, warnings-append, Untouched, on_frame-Untouched,
}

-- The warnings that were sent, and one more while the next can be.
abbrev pub warning_budget : Stream → ℕ
warning_budget s = warnings s.sent + (if s.warning_sent then 0 else 1)

Untouched-budget : (s t : Stream) → Untouched s t → warning_budget t ≡ warning_budget s
Untouched-budget s t u = rw (u.none_sent, u.flag_kept) refl

step_budget :
    (now : ℕ) (e : Event) (s : Stream)
    → warning_budget (step now e s) ≤ warning_budget s + (if is_activity e then 1 else 0)
unfolding step finish send reset_idle_timer on_codec on_monitor set_encoders
step_budget now stop_closed s = omega arith
step_budget now warning_fired s =
    let due = warnings-append s.sent (warning_message (inactivity_warning / 1000000000)) in
    elim (Bool-cases (leb s.warning_at now && not s.warning_sent)) [
      | inl fires ↦
          let unsent : s.warning_sent ≡ false = ground arith in
          rw (fires, due, unsent) (omega arith)
      | inr early ↦ rw early (omega arith)
    ]
step_budget now idle_fired s = elim (Bool-cases (leb s.idle_at now)) [
  | inl due ↦ rw (due, warnings-append s.sent timeout_message) (omega arith)
  | inr early ↦ rw early (omega arith)
]
step_budget now (block_requested on) s =
    let same = warnings-append s.sent (input_block_status on) in ground (arith, same)
step_budget now (input_received p) s = ground arith
step_budget now (monitor_requested none a) s = ground arith
step_budget now (monitor_requested (some size) a) s =
    let same = warnings-append s.sent (init_message size.0 size.1) in ground (arith, same)
step_budget now (codec_requested name a) s =
    let same = warnings-append s.sent (codec_switch name) in ground (arith, same)
step_budget now (frame_due c a n m w) s =
    let same = Untouched-budget s _ (on_frame-Untouched c a n m w s) in omega arith

run_budget :
    (es : List (ℕ × Event)) (s : Stream)
    → warning_budget (run es s) ≤ warning_budget s + activities es
run_budget [] s = rw (run_nil s) (omega arith)
run_budget (e ∷ es) s = elim (Bool-cases s.running) [
  | inl on ↦
      let ih = run_budget es (step e.0 e.1 s) in
      let one = step_budget e.0 e.1 s in rw (run_on e es s on) (ground arith)
  | inr off ↦ rw (run_off (e ∷ es) s off) (omega arith)
]

-- A stream warns of inactivity once from its start on, and once more behind each activity at most.
pub warnings_bounded :
    (opened : ℕ) (size : ℕ × ℕ) (a : Attempt) (w : Bool) (es : List (ℕ × Event))
    → warnings (run es (opened_stream opened size a w)).sent ≤ 1 + activities es
unfolding opened_stream
warnings_bounded opened size a w es =
    let all = run_budget es (opened_stream opened size a w) in omega arith
