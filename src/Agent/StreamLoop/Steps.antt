-- ===== src/Agent/StreamLoop/Steps.antt =====
-- The opening of a stream and the cases of the loop's select, of StreamSession.run in agent/stream.go.
use oblireach.Base.{
  ℕ, ◌+◌, ◌-◌, ◌*◌, ◌/◌, Bool, true, false, Option, none, some, List, [], ◌∷◌, ◌++◌, Bytes, codes,
  ltb, leb, ◌==◌, ◌&&◌, ◌||◌, not, is_empty, if◌then◌else◌,
}
use oblireach.Agent.Bitrate.{AdaptiveBitrate, new_adaptive_bitrate}
use oblireach.Agent.Encoders.{Encoders, Attempt, start, switch_codec, switch_monitor, encoder_of}
use oblireach.Agent.StreamLoop.{
  fps, start_bitrate, inactivity_timeout, inactivity_warning, Message, init_message, codec_switch,
  warning_message, timeout_message, input_block_status, Stream, Encoded, encode_error, produced,
  Event, stop_closed, warning_fired, idle_fired, block_requested, input_received, monitor_requested,
  codec_requested, frame_due, send, finish, reset_idle_timer, frame_type, send_and_adapt, stamp,
  no_output, keeps_empty,
}
pub mod Kept
pub mod Bounds
pub mod Quiet
pub mod Timers
pub mod Warnings
pub mod Rate
mod Examples

pub opened_stream : ℕ → ℕ × ℕ → Attempt → Bool → Stream
opened_stream now size attempt wmf_starts = record {
  width = size.0;
  height = size.1;
  encoders = start attempt wmf_starts;
  bitrate = new_adaptive_bitrate fps;
  h264_bitrate = start_bitrate;
  pts = 0;
  ts_ms = 0;
  idle_at = now + inactivity_timeout;
  warning_at = now + (inactivity_timeout - inactivity_warning);
  warning_sent = false;
  blocked = false;
  sent = init_message size.0 size.1 ∷ [];
  running = true;
}

-- No stream when the capture does not start, has no size, or the init message is not written.
pub open_stream : ℕ → Option (ℕ × ℕ) → Attempt → Bool → Bool → Option Stream
open_stream now none attempt wmf_starts init_written = none
open_stream now (some size) attempt wmf_starts init_written =
    if (size.0 == 0 || size.1 == 0) || not init_written
    then none
    else some (opened_stream now size attempt wmf_starts)

-- The flags behind a switch; OpenH264 starts at the bitrate that the stream started with.
pub set_encoders : Encoders → Stream → Stream
set_encoders e s = record s {
  encoders = e;
  h264_bitrate = if e.use_openh264 then start_bitrate else s.h264_bitrate;
}

pub on_monitor : ℕ → Option (ℕ × ℕ) → Attempt → Stream → Stream
on_monitor now none attempt s =
    set_encoders (switch_monitor false attempt s.encoders) (reset_idle_timer now s)
on_monitor now (some size) attempt s =
    let switched = set_encoders (switch_monitor true attempt s.encoders) (reset_idle_timer now s) in
    send (init_message size.0 size.1) (record switched { width = size.0; height = size.1 })

pub on_codec : ℕ → Bytes → Attempt → Stream → Stream
on_codec now name attempt s =
    send (codec_switch name)
      (set_encoders (switch_codec name attempt s.encoders) (reset_idle_timer now s))

pub on_encoded : Encoded → ℕ → ℕ → Option ℕ → Stream → Stream
on_encoded encode_error input_count output_count write s =
    stamp (encoder_of s.encoders) encode_error s
on_encoded (produced bytes) input_count output_count write s =
    let encoder = encoder_of s.encoders in
    let stamped = stamp encoder (produced bytes) s in
    if is_empty bytes && not (keeps_empty encoder)
    then no_output encoder input_count output_count stamped
    else send_and_adapt (frame_type encoder ∷ bytes) write stamped

-- A frame of another size ends the loop; a capture that fails is skipped.
pub on_frame : Option (ℕ × ℕ) → Encoded → ℕ → ℕ → Option ℕ → Stream → Stream
on_frame none answer input_count output_count write s = s
on_frame (some size) answer input_count output_count write s =
    if size.0 == s.width && size.1 == s.height
    then on_encoded answer input_count output_count write s
    else finish s

-- A timer fires when its time has come.
pub step : ℕ → Event → Stream → Stream
step now stop_closed s = finish s
step now warning_fired s =
    if leb s.warning_at now && not s.warning_sent
    then send (warning_message (inactivity_warning / 1000000000)) (record s { warning_sent = true })
    else s
step now idle_fired s = if leb s.idle_at now then finish (send timeout_message s) else s
step now (block_requested on) s = send (input_block_status on) (record s { blocked = on })
step now (input_received payload) s = reset_idle_timer now s
step now (monitor_requested size attempt) s = on_monitor now size attempt s
step now (codec_requested name attempt) s = on_codec now name attempt s
step now (frame_due size answer input_count output_count write) s =
    on_frame size answer input_count output_count write s

-- The events that reach a stream; one that has ended takes none.
pub run : List (ℕ × Event) → Stream → Stream
run [] s = s
run (e ∷ es) s = if s.running then run es (step e.0 e.1 s) else s
