-- ===== src/Agent/StreamLoop/Steps/Quiet.antt =====
-- Activity and warnings of a stream, and the frames.
use oblireach.Base.{
  ℕ, ◌+◌, ◌≡◌, refl, Bool, true, false, Option, none, some, List, [], ◌∷◌, ◌++◌, Bytes, ltb, leb,
  ◌==◌, ◌&&◌, not, is_empty, if◌then◌else◌, Bool-cases, ◌∙◌, inl, inr, arith,
}
use oblireach.Agent.Bitrate.{report}
use oblireach.Agent.Encoders.{
  Encoder, encoder_of, jpeg, av1_encoder, h265_encoder, vp9_encoder, openh264_encoder, wmf_encoder,
}
use oblireach.Agent.StreamLoop.{
  Message, init_message, codec_switch, warning_message, bitrate_message, binary, timeout_message,
  input_block_status, jpeg_fallback_threshold, Stream, Encoded, encode_error, produced, Event,
  stop_closed, warning_fired, idle_fired, block_requested, input_received, monitor_requested,
  codec_requested, frame_due, send, finish, send_and_adapt, stamp, no_output, keeps_empty,
}
use oblireach.Agent.StreamLoop.Steps.{on_encoded, on_frame}

-- What counts as activity: input, and a switch of codec or monitor.
abbrev pub is_activity : Event → Bool
is_activity stop_closed = false
is_activity warning_fired = false
is_activity idle_fired = false
is_activity (block_requested on) = false
is_activity (input_received p) = true
is_activity (monitor_requested c a) = true
is_activity (codec_requested name a) = true
is_activity (frame_due c a n m w) = false

-- The time of the last activity among some events, or the time given.
abbrev pub last_activity : ℕ → List (ℕ × Event) → ℕ
last_activity t [] = t
last_activity t (e ∷ es) = last_activity (if is_activity e.1 then e.0 else t) es

abbrev pub is_warning : Message → Bool
is_warning (init_message w h) = false
is_warning (bitrate_message n) = false
is_warning (codec_switch name) = false
is_warning (warning_message n) = true
is_warning timeout_message = false
is_warning (input_block_status b) = false
is_warning (binary b) = false

-- The number of warnings among some messages.
abbrev pub warnings : List Message → ℕ
warnings [] = 0
warnings (m ∷ l) = let rest = warnings l in if is_warning m then rest + 1 else rest

-- The number of activities among some events.
abbrev pub activities : List (ℕ × Event) → ℕ
activities [] = 0
activities (e ∷ es) = let rest = activities es in if is_activity e.1 then rest + 1 else rest

pub warnings-append :
    (l : List Message) (m : Message)
    → warnings (l ++ (m ∷ [])) ≡ warnings l + (if is_warning m then 1 else 0)
warnings-append [] m = ground arith
warnings-append (x ∷ l) m = ground (arith, warnings-append l m)

-- A step that does not touch the timers and sends no warning.
pub record Untouched (s t : Stream) : Type 0 where
  pub idle_kept : t.idle_at ≡ s.idle_at
  pub flag_kept : t.warning_sent ≡ s.warning_sent
  pub none_sent : warnings t.sent ≡ warnings s.sent

pub untouched : (s : Stream) → Untouched s s
untouched s = record { idle_kept = refl; flag_kept = refl; none_sent = refl }

pub sent-Untouched :
    (s t : Stream) (m : Message) → Untouched s t → is_warning m ≡ false → Untouched s (send m t)
unfolding send
sent-Untouched s t m u h = record {
  idle_kept = u.idle_kept;
  flag_kept = u.flag_kept;
  none_sent = warnings-append t.sent m ∙ (rw h (omega arith) ∙ u.none_sent);
}

pub send_and_adapt-Untouched :
    (f : Bytes) (w : Option ℕ) (s t : Stream) → Untouched s t → Untouched s (send_and_adapt f w t)
unfolding send_and_adapt finish
send_and_adapt-Untouched f none s t u = record {
  idle_kept = u.idle_kept;
  flag_kept = u.flag_kept;
  none_sent = u.none_sent;
}
send_and_adapt-Untouched f (some d) s t u =
    let framed = sent-Untouched s t (binary f) u refl in
    let adapted : Untouched s (record (send (binary f) t) { bitrate = (report d t.bitrate).0 }) =
      record {
        idle_kept = framed.idle_kept;
        flag_kept = framed.flag_kept;
        none_sent = framed.none_sent;
      } in
    elim (Bool-cases (ltb 0 (report d t.bitrate).1)) [
      | inl changed ↦ rw changed (
          sent-Untouched s _ _
            (record {
              idle_kept = adapted.idle_kept;
              flag_kept = adapted.flag_kept;
              none_sent = adapted.none_sent;
            })
            refl)
      | inr kept ↦ rw kept adapted
    ]

pub stamp-Untouched : (e : Encoder) (a : Encoded) (s : Stream) → Untouched s (stamp e a s)
unfolding stamp
stamp-Untouched openh264_encoder a s = record {
  idle_kept = refl;
  flag_kept = refl;
  none_sent = refl;
}
stamp-Untouched wmf_encoder (produced b) s = record {
  idle_kept = refl;
  flag_kept = refl;
  none_sent = refl;
}
stamp-Untouched wmf_encoder encode_error s = untouched s
stamp-Untouched jpeg a s = untouched s
stamp-Untouched vp9_encoder a s = untouched s
stamp-Untouched h265_encoder a s = untouched s
stamp-Untouched av1_encoder a s = untouched s

pub no_output-Untouched :
    (e : Encoder) (n m : ℕ) (s t : Stream) → Untouched s t → Untouched s (no_output e n m t)
unfolding no_output
no_output-Untouched wmf_encoder n m s t u =
    elim (Bool-cases (leb jpeg_fallback_threshold n && m == 0)) [
      | inl silent ↦ rw silent (
          sent-Untouched s _ _
            (record { idle_kept = u.idle_kept; flag_kept = u.flag_kept; none_sent = u.none_sent })
            refl)
      | inr early ↦ rw early u
    ]
no_output-Untouched jpeg n m s t u = u
no_output-Untouched openh264_encoder n m s t u = u
no_output-Untouched vp9_encoder n m s t u = u
no_output-Untouched h265_encoder n m s t u = u
no_output-Untouched av1_encoder n m s t u = u

pub on_encoded-Untouched :
    (a : Encoded) (n m : ℕ) (w : Option ℕ) (s : Stream) → Untouched s (on_encoded a n m w s)
unfolding on_encoded
on_encoded-Untouched encode_error n m w s = stamp-Untouched _ _ s
on_encoded-Untouched (produced b) n m w s =
    let e = encoder_of s.encoders in
    let stamped = stamp-Untouched e (produced b) s in
    elim (Bool-cases (is_empty b && not (keeps_empty e))) [
      | inl nothing ↦ rw nothing (no_output-Untouched e n m s _ stamped)
      | inr some_bytes ↦ rw some_bytes (send_and_adapt-Untouched _ w s _ stamped)
    ]

pub on_frame-Untouched :
    (c : Option (ℕ × ℕ)) (a : Encoded) (n m : ℕ) (w : Option ℕ) (s : Stream)
    → Untouched s (on_frame c a n m w s)
unfolding on_frame finish
on_frame-Untouched none a n m w s = untouched s
on_frame-Untouched (some size) a n m w s =
    elim (Bool-cases (size.0 == s.width && size.1 == s.height)) [
      | inl same ↦ rw same (on_encoded-Untouched a n m w s)
      | inr other ↦ rw other (record { idle_kept = refl; flag_kept = refl; none_sent = refl })
    ]
