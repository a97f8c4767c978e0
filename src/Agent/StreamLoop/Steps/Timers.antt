-- ===== src/Agent/StreamLoop/Steps/Timers.antt =====
-- When a stream is ended for inactivity, and how often it warns.
use oblireach.Base.{
  ℕ, ◌+◌, ◌≤◌, ◌<◌, ◌≡◌, refl, Bool, true, false, none, some, List, [], ◌∷◌, leb, if◌then◌else◌,
  Bool-cases, ◌∙◌, inl, inr, arith,
}
use oblireach.Agent.Encoders.{Attempt}
use oblireach.Agent.StreamLoop.{
  inactivity_timeout, timeout_message, Stream, Event, stop_closed, warning_fired, idle_fired,
  block_requested, input_received, monitor_requested, codec_requested, frame_due, send, finish,
  reset_idle_timer,
}
use oblireach.Agent.StreamLoop.Steps.{opened_stream, set_encoders, on_monitor, on_codec, step, run}
use oblireach.Agent.StreamLoop.Steps.Quiet.{is_activity, last_activity, on_frame-Untouched}

step_timer :
    (now : ℕ) (e : Event) (s : Stream)
    → (step now e s).idle_at ≡ (if is_activity e then now + inactivity_timeout else s.idle_at)
unfolding step finish send reset_idle_timer on_codec on_monitor set_encoders
step_timer now stop_closed s = refl
step_timer now warning_fired s = ground arith
step_timer now idle_fired s = ground arith
step_timer now (block_requested on) s = refl
step_timer now (input_received p) s = refl
step_timer now (monitor_requested none a) s = refl
step_timer now (monitor_requested (some size) a) s = refl
step_timer now (codec_requested name a) s = refl
step_timer now (frame_due c a n m w) s = (on_frame-Untouched c a n m w s).idle_kept

pub run_on :
    (e : ℕ × Event) (es : List (ℕ × Event)) (s : Stream)
    → s.running ≡ true
    → run (e ∷ es) s ≡ run es (step e.0 e.1 s)
unfolding run
run_on e es s on = simp on refl

pub run_off : (es : List (ℕ × Event)) (s : Stream) → s.running ≡ false → run es s ≡ s
unfolding run
run_off [] s off = refl
run_off (e ∷ es) s off = simp off refl

pub run_nil : (s : Stream) → run [] s ≡ s
unfolding run
run_nil s = refl

run_timer_nil :
    (t : ℕ) (s : Stream)
    → s.idle_at ≡ t + inactivity_timeout
    → (run [] s).idle_at ≡ t + inactivity_timeout
unfolding run
run_timer_nil t s h = h

-- While a stream runs, it times out ten minutes behind the last activity.
run_timer :
    (t : ℕ) (es : List (ℕ × Event)) (s : Stream)
    → s.idle_at ≡ t + inactivity_timeout
    → (run es s).running ≡ true
    → (run es s).idle_at ≡ last_activity t es + inactivity_timeout
run_timer t [] s h r = run_timer_nil t s h
run_timer t (e ∷ es) s h r = elim (Bool-cases s.running) [
  | inl on ↦
      let next : (step e.0 e.1 s).idle_at
          ≡ (if is_activity e.1 then e.0 else t) + inactivity_timeout =
        step_timer e.0 e.1 s ∙ ground arith in
      rw (run_on e es s on) (run_timer _ es (step e.0 e.1 s) next (rw (run_on e es s on) at r))
  | inr off ↦ cc (run_off (e ∷ es) s off)
]

idle_step :
    (now : ℕ) (s : Stream)
    → ((now < s.idle_at) → (step now idle_fired s ≡ s))
      × ((s.idle_at ≤ now) → (step now idle_fired s ≡ finish (send timeout_message s)))
unfolding step
idle_step now s = (
  (λ h. let early : leb s.idle_at now ≡ false = ground arith in rw early refl),
  (λ h. let due : leb s.idle_at now ≡ true = ground arith in rw due refl),
)

-- The inactivity timer leaves a running stream alone until ten minutes have passed since its last
-- input or switch, or since it was opened, and ends it with a message from then on.
pub idle_timeout :
    (now opened : ℕ) (size : ℕ × ℕ) (a : Attempt) (w : Bool) (es : List (ℕ × Event))
    → (run es (opened_stream opened size a w)).running ≡ true
    → ((now < last_activity opened es + inactivity_timeout)
        → (step now idle_fired (run es (opened_stream opened size a w))
            ≡ run es (opened_stream opened size a w)))
      × ((last_activity opened es + inactivity_timeout ≤ now)
          → (step now idle_fired (run es (opened_stream opened size a w))
              ≡ finish (send timeout_message (run es (opened_stream opened size a w)))))
unfolding opened_stream
idle_timeout now opened size a w es r =
    let s = opened_stream opened size a w in
    let at : (run es s).idle_at ≡ last_activity opened es + inactivity_timeout =
      run_timer opened es s refl r in
    let idle = idle_step now (run es s) in ((λ h. idle.0 (rw at h)), (λ h. idle.1 (rw at h)))
