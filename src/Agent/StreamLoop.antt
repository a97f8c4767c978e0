-- ===== src/Agent/StreamLoop.antt =====
-- The capture, encode and send loop of StreamSession.run in agent/stream.go, as the sequence of what
-- its select receives: each event carries the time, in nanoseconds, and what the capture, the
-- encoders and the connection answered.
pub mod Steps
pub mod Reader
use oblireach.Base.{
  ℕ, ◌+◌, ◌-◌, ◌*◌, ◌/◌, Bool, true, false, Option, none, some, List, [], ◌∷◌, ◌++◌, Bytes, codes,
  ltb, leb, ◌==◌, ◌&&◌, not, is_empty, if◌then◌else◌,
}
use oblireach.Agent.Bitrate.{AdaptiveBitrate, new_adaptive_bitrate, report}
use oblireach.Agent.Encoders.{
  Encoders, Attempt, start, switch_codec, switch_monitor, fall_back, Encoder, encoder_of, jpeg,
  av1_encoder, h265_encoder, vp9_encoder, openh264_encoder, wmf_encoder,
}

abbrev pub fps : ℕ
fps = 30

abbrev pub start_bitrate : ℕ
start_bitrate = 20000000

abbrev pub inactivity_timeout : ℕ
inactivity_timeout = 600 * 1000000000

abbrev pub inactivity_warning : ℕ
inactivity_warning = 30 * 1000000000

abbrev pub jpeg_fallback_threshold : ℕ
jpeg_fallback_threshold = 30

-- The text frames that the loop writes, and a binary frame.
pub data Message : Type 0 where
  init_message : ℕ → ℕ → Message
  bitrate_message : ℕ → Message
  codec_switch : Bytes → Message
  warning_message : ℕ → Message
  timeout_message : Message
  input_block_status : Bool → Message
  binary : Bytes → Message

pub record Stream : Type 0 where
  pub width : ℕ
  pub height : ℕ
  pub encoders : Encoders
  pub bitrate : AdaptiveBitrate
  pub h264_bitrate : ℕ
  pub pts : ℕ
  pub ts_ms : ℕ
  pub idle_at : ℕ
  pub warning_at : ℕ
  pub warning_sent : Bool
  pub blocked : Bool
  pub sent : List Message
  pub running : Bool

-- What an encoder answers to a frame.
pub data Encoded : Type 0 where
  encode_error : Encoded
  produced : Bytes → Encoded

pub data Event : Type 0 where
  stop_closed : Event
  warning_fired : Event
  idle_fired : Event
  block_requested : Bool → Event
  input_received : Bytes → Event
  -- The size of the new monitor, when its capture starts, and the start of OpenH264 on it.
  monitor_requested : Option (ℕ × ℕ) → Attempt → Event
  codec_requested : Bytes → Attempt → Event
  -- The size of the captured frame, the encoder's answer, WMF's counts of frames in and out, and the
  -- time that the write took.
  frame_due : Option (ℕ × ℕ) → Encoded → ℕ → ℕ → Option ℕ → Event

pub send : Message → Stream → Stream
send m s = record s { sent = s.sent ++ (m ∷ []) }

-- The loop returns; inputUnblock is deferred.
pub finish : Stream → Stream
finish s = record s { running = false; blocked = false }

pub reset_idle_timer : ℕ → Stream → Stream
reset_idle_timer now s = record s {
  idle_at = now + inactivity_timeout;
  warning_at = now + (inactivity_timeout - inactivity_warning);
  warning_sent = false;
}

-- frameTypeH264 and the others.
unfoldable pub frame_type : Encoder → ℕ
frame_type openh264_encoder = 0x02
frame_type wmf_encoder = 0x02
frame_type jpeg = 0x01
frame_type vp9_encoder = 0x03
frame_type h265_encoder = 0x04
frame_type av1_encoder = 0x05

-- sendAndAdapt: a write that fails ends the loop.
pub send_and_adapt : Bytes → Option ℕ → Stream → Stream
send_and_adapt data_frame none s = finish s
send_and_adapt data_frame (some duration) s =
    let written = send (binary data_frame) s in
    let reported = report duration s.bitrate in
    let adapted = record written { bitrate = reported.0 } in
    let h264 = s.encoders.use_openh264 in
    if ltb 0 reported.1
    then send (bitrate_message reported.1)
        (record adapted { h264_bitrate = if h264 then reported.1 else s.h264_bitrate })
    else adapted

-- The time stamps move before the encoder's answer is looked at, for WMF behind a failure.
pub stamp : Encoder → Encoded → Stream → Stream
stamp openh264_encoder answer s = record s { ts_ms = s.ts_ms + 1000 / fps }
stamp wmf_encoder (produced bytes) s = record s { pts = s.pts + 1000000000 / fps / 100 }
stamp wmf_encoder encode_error s = s
stamp jpeg answer s = s
stamp vp9_encoder answer s = s
stamp h265_encoder answer s = s
stamp av1_encoder answer s = s

-- Only WMF's empty answers can lead to JPEG.
pub no_output : Encoder → ℕ → ℕ → Stream → Stream
no_output wmf_encoder input_count output_count s =
    if leb jpeg_fallback_threshold input_count && output_count == 0
    then send (codec_switch (codes "jpeg")) (record s { encoders = fall_back s.encoders })
    else s
no_output jpeg i o s = s
no_output openh264_encoder i o s = s
no_output vp9_encoder i o s = s
no_output h265_encoder i o s = s
no_output av1_encoder i o s = s

-- An empty JPEG is sent all the same.
pub keeps_empty : Encoder → Bool
keeps_empty jpeg = true
keeps_empty openh264_encoder = false
keeps_empty wmf_encoder = false
keeps_empty vp9_encoder = false
keeps_empty h265_encoder = false
keeps_empty av1_encoder = false
