-- ===== src/Agent/StreamLoop/Steps/Rate.antt =====
-- The rate of OpenH264 behind a codec switch.
use oblireach.Base.{◌≡◌, refl, ℕ, codes}
use oblireach.Agent.Encoders.{opened}
use oblireach.Agent.Encoders.Release.{switch_to_h264}
use oblireach.Agent.StreamLoop.{Stream, start_bitrate, codec_requested, send, reset_idle_timer}
use oblireach.Agent.StreamLoop.Steps.{step, on_codec, set_encoders}

-- A switch to H.264 runs OpenH264 at the rate that the stream started with, whatever the adapted rate
-- is, which stays as it was.
pub step_restarts_rate :
    (now : ℕ) (s : Stream)
    → ((step now (codec_requested (codes "h264") opened) s).h264_bitrate ≡ start_bitrate)
      × ((step now (codec_requested (codes "h264") opened) s).bitrate ≡ s.bitrate)
unfolding step on_codec set_encoders send reset_idle_timer
step_restarts_rate now s = (rw (switch_to_h264 s.encoders) refl, refl)
