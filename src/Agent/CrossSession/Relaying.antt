-- ===== src/Agent/CrossSession/Relaying.antt =====
-- What the messages of a helper become in runCrossSession of agent/remote_session_windows.go.
use oblireach.Base.{
  ℕ, true, Option, none, some, List, [], ◌∷◌, ◌++◌, Bytes, ltb, ◌≡◌, refl, Bool-cases, inl, inr, ap,
  sym, ◌∙◌,
}
use mathlib.Core.List.{append_assoc, append-nil}
use oblireach.Agent.Bitrate.{report}
use oblireach.Agent.Encoders.{
  Encoder, jpeg, av1_encoder, h265_encoder, vp9_encoder, openh264_encoder, wmf_encoder,
}
use oblireach.Agent.StreamLoop.{frame_type}
use oblireach.Agent.CrossSession.{
  pipe_type_frame, pipe_type_jpeg_frame, pipe_type_vp9_frame, pipe_type_h265_frame,
  pipe_type_av1_frame, pipe_type_control, pipe_type_audio_data, frame_type_audio, ToBrowser, text,
  binary, CrossSession, frame_tag, is_frame, write, tell_bitrate, relay_frame, relay_control,
  relay_audio, relay_message, relay_step, relay_all, pipe_type_init, Turn, received, timed_out,
}

-- The message type that the helper gives to the frames of an encoder.
abbrev pub pipe_type_of : Encoder → ℕ
pipe_type_of jpeg = pipe_type_jpeg_frame
pipe_type_of av1_encoder = pipe_type_av1_frame
pipe_type_of h265_encoder = pipe_type_h265_frame
pipe_type_of vp9_encoder = pipe_type_vp9_frame
pipe_type_of openh264_encoder = pipe_type_frame
pipe_type_of wmf_encoder = pipe_type_frame

-- A frame that comes through a helper reaches the browser with the tag that the same encoder's frames
-- have on a stream that is captured directly.
pub frame_tag-pipe_type_of :
    (e : Encoder) → (is_frame (pipe_type_of e) ≡ true) × (frame_tag (pipe_type_of e) ≡ frame_type e)
unfolding is_frame frame_tag frame_type
frame_tag-pipe_type_of jpeg = (refl, refl)
frame_tag-pipe_type_of av1_encoder = (refl, refl)
frame_tag-pipe_type_of h265_encoder = (refl, refl)
frame_tag-pipe_type_of vp9_encoder = (refl, refl)
frame_tag-pipe_type_of openh264_encoder = (refl, refl)
frame_tag-pipe_type_of wmf_encoder = (refl, refl)

-- The binary frames among those to the browser.
abbrev pub binaries : List ToBrowser → List Bytes
binaries [] = []
binaries (text t ∷ l) = binaries l
binaries (binary b ∷ l) = b ∷ binaries l

binaries-append : (l r : List ToBrowser) → binaries (l ++ r) ≡ binaries l ++ binaries r
binaries-append [] r = refl
binaries-append (text t ∷ l) r = binaries-append l r
binaries-append (binary b ∷ l) r = ap (◌∷◌ b) (binaries-append l r)

-- What the helper sends behind its first message: a frame of an encoder, audio, a control message, or
-- the init message of another monitor.
pub data Output : Type 0 where
  video : Encoder → Bytes → Output
  audio control reinit : Bytes → Output

-- The message that carries it.
abbrev pub message_of : Output → ℕ × Bytes
message_of (video e payload) = (pipe_type_of e, payload)
message_of (audio payload) = (pipe_type_audio_data, payload)
message_of (control payload) = (pipe_type_control, payload)
message_of (reinit payload) = (pipe_type_init, payload)

-- The binary frames that the browser would get of it on a stream without a helper.
abbrev pub expected : Output → List Bytes
expected (video e payload) = (frame_type e ∷ payload) ∷ []
expected (audio payload) = (frame_type_audio ∷ payload) ∷ []
expected (control payload) = []
expected (reinit payload) = []

-- Turns in which the helper's output arrives and is written in some time, or the deadline passes.
abbrev pub turns : List (Option (Output × ℕ)) → List Turn
turns [] = []
turns (none ∷ os) = timed_out ∷ turns os
turns (some (o, duration) ∷ os) =
    received (message_of o).0 (message_of o).1 (some duration) ∷ turns os

abbrev pub expected_all : List (Option (Output × ℕ)) → List Bytes
expected_all [] = []
expected_all (none ∷ os) = expected_all os
expected_all (some (o, duration) ∷ os) = expected o ++ expected_all os

module _ (set_bitrate_json bitrate_json : ℕ → Bytes) where
  tell_bitrate_rest :
      (rate : ℕ) (s : CrossSession)
      → (binaries (tell_bitrate set_bitrate_json bitrate_json rate s).to_browser
          ≡ binaries s.to_browser)
        × ((tell_bitrate set_bitrate_json bitrate_json rate s).running ≡ s.running)
  unfolding tell_bitrate write
  tell_bitrate_rest rate s = elim (Bool-cases (ltb 0 rate)) [
    | inl changed ↦ rw changed (binaries-append s.to_browser _ ∙ append-nil _, refl)
    | inr same ↦ rw same (refl, refl)
  ]

  -- A message of each kind.
  video_carried :
      (e : Encoder) (payload : Bytes) (duration : ℕ) (s : CrossSession)
      → (relay_message set_bitrate_json bitrate_json (pipe_type_of e) payload (some duration) s)
        ≡ relay_frame set_bitrate_json bitrate_json (pipe_type_of e) payload (some duration) s
  unfolding relay_message is_frame
  video_carried jpeg payload duration s = refl
  video_carried av1_encoder payload duration s = refl
  video_carried h265_encoder payload duration s = refl
  video_carried vp9_encoder payload duration s = refl
  video_carried openh264_encoder payload duration s = refl
  video_carried wmf_encoder payload duration s = refl

  output_carried :
      (o : Output) (duration : ℕ) (s : CrossSession)
      → let m = message_of o in
        let s' = relay_message set_bitrate_json bitrate_json m.0 m.1 (some duration) s in
        (binaries s'.to_browser ≡ binaries s.to_browser ++ expected o) × (s'.running ≡ s.running)
  unfolding relay_message relay_control relay_audio relay_frame write is_frame
  output_carried (video e payload) duration s =
      let told = tell_bitrate_rest (report duration s.bitrate).1 _ in
      let tag = (frame_tag-pipe_type_of e).1 in
      rw (video_carried e payload duration s)
        (rw (← tag) (told.0 ∙ binaries-append s.to_browser _), told.1)
  output_carried (audio payload) duration s = (binaries-append s.to_browser _, refl)
  output_carried (control payload) duration s = (binaries-append s.to_browser _, refl)
  output_carried (reinit payload) duration s = (sym (append-nil _), refl)

  relay_nil : (s : CrossSession) → relay_all set_bitrate_json bitrate_json [] s ≡ s
  unfolding relay_all
  relay_nil s = refl

  relay_on :
      (t : Turn) (ts : List Turn) (s : CrossSession)
      → s.running ≡ true
      → relay_all set_bitrate_json bitrate_json (t ∷ ts) s
        ≡ relay_all set_bitrate_json bitrate_json ts (relay_step set_bitrate_json bitrate_json t s)
  unfolding relay_all
  relay_on t ts s on = simp on refl

  -- Of what the helper sends, the messages that pipeRecv returns, while their writes succeed: the
  -- browser gets the frames of each encoder with the tag that they have without a helper, and the
  -- audio with its tag, in order, and no other binary frame; reads that only time out change nothing.
  pub relay_all_carries :
      (os : List (Option (Output × ℕ))) (s : CrossSession)
      → s.running ≡ true
      → binaries (relay_all set_bitrate_json bitrate_json (turns os) s).to_browser
        ≡ binaries s.to_browser ++ expected_all os
  unfolding relay_step
  relay_all_carries [] s on = rw (relay_nil s) (sym (append-nil _))
  relay_all_carries (none ∷ os) s on =
      rw (relay_on timed_out (turns os) s on) (relay_all_carries os s on)
  relay_all_carries (some (o, duration) ∷ os) s on =
      let m = message_of o in
      let one = output_carried o duration s in
      let next = relay_message set_bitrate_json bitrate_json m.0 m.1 (some duration) s in
      rw
        (
          relay_on (received m.0 m.1 (some duration)) (turns os) s on,
          relay_all_carries os next (one.1 ∙ on),
          one.0,
        )
        (append_assoc (binaries s.to_browser) _ _)
