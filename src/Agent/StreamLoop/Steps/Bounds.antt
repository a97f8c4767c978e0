-- ===== src/Agent/StreamLoop/Steps/Bounds.antt =====
-- What holds of a stream after any events.
use oblireach.Base.{
  ℕ, ◌≡◌, refl, Bool, true, false, Option, none, some, List, [], ◌∷◌, Bytes, leb, ◌==◌, ◌&&◌, ◌||◌,
  not, Bool-cases, inl, inr, arith,
}
use oblireach.Agent.Bitrate.Laws.{new_adaptive_bitrate-Within}
use oblireach.Agent.Encoders.{Encoders, Attempt}
use oblireach.Agent.Encoders.Laws.{switch_codec-Inv, switch_monitor-Inv}
use oblireach.Agent.Encoders.Flags.{start-Inv}
use oblireach.Agent.Encoders.Flags
use oblireach.Agent.StreamLoop.{
  fps, Message, Stream, Encoded, Event, stop_closed, warning_fired, idle_fired, block_requested,
  input_received, monitor_requested, codec_requested, frame_due, send, finish, reset_idle_timer,
}
use oblireach.Agent.StreamLoop.Steps.{
  open_stream, opened_stream, set_encoders, on_monitor, on_codec, on_frame, step, run,
}
use oblireach.Agent.StreamLoop.Steps.Kept.{Inv, same_Inv, on_encoded-Inv}

finish-Inv : (s : Stream) → Inv s → Inv (finish s)
unfolding finish
finish-Inv s i = record {
  encoders_agree = i.encoders_agree;
  bitrate_within = i.bitrate_within;
  released = λ h. refl;
}

on_frame-Inv :
    (c : Option (ℕ × ℕ)) (a : Encoded) (n m : ℕ) (w : Option ℕ) (s : Stream)
    → s.running ≡ true
    → Inv s
    → Inv (on_frame c a n m w s)
unfolding on_frame
on_frame-Inv none a n m w s r i = i
on_frame-Inv (some size) a n m w s r i =
    elim (Bool-cases (size.0 == s.width && size.1 == s.height)) [
      | inl same ↦ rw same (on_encoded-Inv a n m w s r i)
      | inr other ↦ rw other (finish-Inv s i)
    ]

set_encoders-Inv : (e : Encoders) (s : Stream) → Flags.Inv e → Inv s → Inv (set_encoders e s)
unfolding set_encoders
set_encoders-Inv e s h i = record {
  encoders_agree = h;
  bitrate_within = i.bitrate_within;
  released = i.released;
}

reset_idle_timer-Inv : (now : ℕ) (s : Stream) → Inv s → Inv (reset_idle_timer now s)
unfolding reset_idle_timer
reset_idle_timer-Inv now s i = same_Inv s _ i refl refl refl refl

send-Inv : (m : Message) (s : Stream) → Inv s → Inv (send m s)
unfolding send
send-Inv m s i = same_Inv s _ i refl refl refl refl

on_monitor-Inv :
    (now : ℕ) (c : Option (ℕ × ℕ)) (a : Attempt) (s : Stream) → Inv s → Inv (on_monitor now c a s)
unfolding on_monitor
on_monitor-Inv now none a s i =
    set_encoders-Inv _ _ (switch_monitor-Inv false a s.encoders i.encoders_agree)
      (reset_idle_timer-Inv now s i)
on_monitor-Inv now (some size) a s i =
    let switched =
      set_encoders-Inv _ _ (switch_monitor-Inv true a s.encoders i.encoders_agree)
        (reset_idle_timer-Inv now s i) in
    send-Inv _ _ (same_Inv _ _ switched refl refl refl refl)

on_codec-Inv :
    (now : ℕ) (name : Bytes) (a : Attempt) (s : Stream) → Inv s → Inv (on_codec now name a s)
unfolding on_codec
on_codec-Inv now name a s i = send-Inv _ _ (
    set_encoders-Inv _ _ (switch_codec-Inv name a s.encoders i.encoders_agree)
      (reset_idle_timer-Inv now s i))

step-Inv : (now : ℕ) (e : Event) (s : Stream) → s.running ≡ true → Inv s → Inv (step now e s)
unfolding step
step-Inv now stop_closed s r i = finish-Inv s i
step-Inv now warning_fired s r i = elim (Bool-cases (leb s.warning_at now && not s.warning_sent)) [
  | inl due ↦ rw due (send-Inv _ _ (same_Inv s _ i refl refl refl refl))
  | inr early ↦ rw early i
]
step-Inv now idle_fired s r i = elim (Bool-cases (leb s.idle_at now)) [
  | inl due ↦ rw due (finish-Inv _ (send-Inv _ s i))
  | inr early ↦ rw early i
]
step-Inv now (block_requested on) s r i = send-Inv _ _ (record {
  encoders_agree = i.encoders_agree;
  bitrate_within = i.bitrate_within;
  released = λ h. absurd cc;
})
step-Inv now (input_received p) s r i = reset_idle_timer-Inv now s i
step-Inv now (monitor_requested c a) s r i = on_monitor-Inv now c a s i
step-Inv now (codec_requested name a) s r i = on_codec-Inv now name a s i
step-Inv now (frame_due c a n m w) s r i = on_frame-Inv c a n m w s r i

pub run-Inv : (es : List (ℕ × Event)) (s : Stream) → Inv s → Inv (run es s)
unfolding run
run-Inv [] s i = i
run-Inv (e ∷ es) s i = elim (Bool-cases s.running) [
  | inl on ↦ simp on (run-Inv es _ (step-Inv e.0 e.1 s on i))
  | inr off ↦ simp off i
]

opened_stream-Inv :
    (now : ℕ) (size : ℕ × ℕ) (a : Attempt) (w : Bool) → Inv (opened_stream now size a w)
unfolding opened_stream
opened_stream-Inv now size a w = record {
  encoders_agree = start-Inv a w;
  bitrate_within = new_adaptive_bitrate-Within fps;
  released = λ h. refl;
}

pub open_stream_opened :
    (now : ℕ) (c : Option (ℕ × ℕ)) (a : Attempt) (w k : Bool) (s : Stream)
    → open_stream now c a w k ≡ some s
    → (size : ℕ × ℕ) × (opened_stream now size a w ≡ s)
unfolding open_stream
open_stream_opened now none a w k s h = cc
open_stream_opened now (some size) a w k s h =
    elim (Bool-cases ((size.0 == 0 || size.1 == 0) || not k)) [
      | inl refused ↦ absurd (ground arith)
      | inr taken ↦ (size, ground arith)
    ]

-- After any events a stream that was opened has its flags and its libraries in step, its bitrate
-- within the bounds, and the input of a stream that has ended is not blocked.
pub run-open_stream-Inv :
    (now : ℕ) (c : Option (ℕ × ℕ)) (a : Attempt) (w k : Bool) (s : Stream) (es : List (ℕ × Event))
    → open_stream now c a w k ≡ some s
    → Inv (run es s)
run-open_stream-Inv now c a w k s es h =
    let (size, opened) = open_stream_opened now c a w k s h in
    run-Inv es s (rw (← opened) (opened_stream-Inv now size a w))
