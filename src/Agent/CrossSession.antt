-- ===== src/Agent/CrossSession.antt =====
-- The service's side of a stream that a helper process captures: runCrossSession of
-- agent/remote_session_windows.go. The helper's messages come with the time that the write of each
-- took, `none` when it failed; the JSON of the two bitrate messages is a parameter.
use oblireach.Base.{
  ℕ, ◌+◌, Bool, true, false, ◌||◌, Option, none, some, List, [], ◌∷◌, ◌++◌, Bytes, ltb, ◌==◌,
  if◌then◌else◌, ◌≡◌, refl, arith, Bool-cases, inl, inr, All, ap, sym, ◌∙◌,
}
use oblireach.Agent.Bitrate.{AdaptiveBitrate, new_adaptive_bitrate, report}
use oblireach.Agent.Bitrate.Laws.{Within, report-Within, new_adaptive_bitrate-Within}
pub mod Relaying
pub mod Reading
mod Examples

abbrev pub pipe_type_init : ℕ
pipe_type_init = 0x01

abbrev pub pipe_type_frame : ℕ
pipe_type_frame = 0x02

abbrev pub pipe_type_input : ℕ
pipe_type_input = 0x03

abbrev pub pipe_type_stop : ℕ
pipe_type_stop = 0x04

abbrev pub pipe_type_jpeg_frame : ℕ
pipe_type_jpeg_frame = 0x05

abbrev pub pipe_type_vp9_frame : ℕ
pipe_type_vp9_frame = 0x06

abbrev pub pipe_type_control : ℕ
pipe_type_control = 0x07

abbrev pub pipe_type_h265_frame : ℕ
pipe_type_h265_frame = 0x08

abbrev pub pipe_type_av1_frame : ℕ
pipe_type_av1_frame = 0x09

abbrev pub pipe_type_audio_data : ℕ
pipe_type_audio_data = 0x0A

abbrev pub frame_type_audio : ℕ
frame_type_audio = 0x06

-- A WebSocket frame to the browser.
pub data ToBrowser : Type 0 where
  text binary : Bytes → ToBrowser

pub record CrossSession : Type 0 where
  pub bitrate : AdaptiveBitrate
  pub to_browser : List ToBrowser
  -- The messages on the pipe to the helper.
  pub to_helper : List (ℕ × Bytes)
  pub running : Bool

-- The tag of a frame of the given message type.
pub frame_tag : ℕ → ℕ
frame_tag t =
    if t == pipe_type_jpeg_frame
    then 0x01
    else if t == pipe_type_vp9_frame
    then 0x03
    else if t == pipe_type_h265_frame
    then 0x04
    else if t == pipe_type_av1_frame
    then 0x05
    else 0x02

pub is_frame : ℕ → Bool
is_frame t =
    (t == pipe_type_frame || (t == pipe_type_jpeg_frame || t == pipe_type_vp9_frame))
    || (t == pipe_type_h265_frame || t == pipe_type_av1_frame)

pub write : ToBrowser → CrossSession → CrossSession
write f s = record s { to_browser = s.to_browser ++ (f ∷ []) }

pub fail : CrossSession → CrossSession
fail s = record s { running = false }

-- The first message has to be init; its JSON goes to the browser.
pub open_cross_session : ℕ → Bytes → Bool → Option CrossSession
open_cross_session t payload init_written =
    if t == pipe_type_init
    then (if init_written
        then some (record {
          bitrate = new_adaptive_bitrate 30;
          to_browser = text payload ∷ [];
          to_helper = [];
          running = true;
        })
        else none)
    else none

-- What a turn of the loop meets: stopCh is closed; pipeRecv returns a message, whose write takes some
-- time or fails; the read deadline passes; the pipe fails.
pub data Turn : Type 0 where
  stop_closed : Turn
  received : ℕ → Bytes → Option ℕ → Turn
  timed_out : Turn
  helper_lost : Turn

module _ (set_bitrate_json bitrate_json : ℕ → Bytes) where
  -- The bitrate goes to the helper and to the browser when it changes.
  tell_bitrate : ℕ → CrossSession → CrossSession
  tell_bitrate rate s =
      if ltb 0 rate
      then write (text (bitrate_json rate))
          (record s { to_helper = s.to_helper ++ ((pipe_type_input, set_bitrate_json rate) ∷ []) })
      else s

  relay_frame : ℕ → Bytes → Option ℕ → CrossSession → CrossSession
  relay_frame t payload none s = fail s
  relay_frame t payload (some duration) s =
      let r = report duration s.bitrate in
      tell_bitrate r.1 (record (write (binary (frame_tag t ∷ payload)) s) { bitrate = r.0 })

  relay_control : Bytes → Option ℕ → CrossSession → CrossSession
  relay_control payload none s = fail s
  relay_control payload (some duration) s = write (text payload) s

  -- A write of audio that fails is ignored.
  relay_audio : Bytes → Option ℕ → CrossSession → CrossSession
  relay_audio payload none s = s
  relay_audio payload (some duration) s = write (binary (frame_type_audio ∷ payload)) s

  pub relay_message : ℕ → Bytes → Option ℕ → CrossSession → CrossSession
  relay_message t payload written s =
      if t == pipe_type_control
      then relay_control payload written s
      else if t == pipe_type_audio_data
      then relay_audio payload written s
      else if is_frame t
      then relay_frame t payload written s
      else s

  -- One turn of the loop. A message that a deadline cuts is not returned by pipeRecv: what was read
  -- of it is gone, as Agent.CrossSession.Reading has it.
  pub relay_step : Turn → CrossSession → CrossSession
  relay_step (received t payload written) s = relay_message t payload written s
  relay_step timed_out s = s
  relay_step stop_closed s =
      fail (record s { to_helper = s.to_helper ++ ((pipe_type_stop, []) ∷ []) })
  relay_step helper_lost s = fail s

  -- The loop, until it returns.
  pub relay_all : List Turn → CrossSession → CrossSession
  relay_all [] s = s
  relay_all (t ∷ ts) s = if s.running then relay_all ts (relay_step t s) else s
