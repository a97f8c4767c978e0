-- ===== src/Agent/Encoders.antt =====
-- The encoders of a stream: the flags of StreamSession.run in agent/stream.go and of runHelperMode in
-- agent/remote_session_windows.go, which share this code, and what the flags mean for the libraries
-- that are held. Whether a library is there and starts is the outcome of the attempt.
use oblireach.Base.{
  ℕ, ◌+◌, Bool, true, false, Bytes, codes, text_eq, if◌then◌else◌, ◌&&◌, not, leb, ◌==◌, List, [],
  ◌∷◌, is_empty,
}
mod Examples
pub mod Flags
pub mod Laws
pub mod Release

-- Which libraries are open.
pub record Held : Type 0 where
  pub capture : Bool
  pub openh264 : Bool
  pub wmf : Bool
  pub vp9 : Bool
  pub h265 : Bool
  pub av1 : Bool

pub record Encoders : Type 0 where
  pub use_openh264 : Bool
  pub use_vp9 : Bool
  pub use_h265 : Bool
  pub use_av1 : Bool
  pub use_jpeg : Bool
  pub held : Held

-- The outcome of a test for a library and of its start.
pub data Attempt : Type 0 where
  unavailable init_failed opened : Attempt

pub succeeds : Attempt → Bool
succeeds opened = true
succeeds unavailable = false
succeeds init_failed = false

-- OpenH264, or else WMF; neither leaves the flags as they are.
pub start : Attempt → Bool → Encoders
start attempt wmf_starts =
    let h264 = succeeds attempt in
    record {
      use_openh264 = h264;
      use_vp9 = false;
      use_h265 = false;
      use_av1 = false;
      use_jpeg = false;
      held = record {
        capture = true;
        openh264 = h264;
        wmf = if h264 then false else wmf_starts;
        vp9 = false;
        h265 = false;
        av1 = false;
      };
    }

-- `if useX { xClose(); useX = false }` for each of the four, then WMF unless `keep_wmf`.
pub tear_down : Bool → Encoders → Encoders
tear_down keep_wmf e = record {
  use_openh264 = false;
  use_vp9 = false;
  use_h265 = false;
  use_av1 = false;
  use_jpeg = false;
  held = record {
    capture = e.held.capture;
    openh264 = if e.use_openh264 then false else e.held.openh264;
    wmf = if keep_wmf then e.held.wmf else false;
    vp9 = if e.use_vp9 then false else e.held.vp9;
    h265 = if e.use_h265 then false else e.held.h265;
    av1 = if e.use_av1 then false else e.held.av1;
  };
}

pub with_openh264 : Encoders → Encoders
with_openh264 e = record e { use_openh264 = true; held = record e.held { openh264 = true } }

pub with_vp9 : Encoders → Encoders
with_vp9 e = record e { use_vp9 = true; held = record e.held { vp9 = true } }

pub with_h265 : Encoders → Encoders
with_h265 e = record e { use_h265 = true; held = record e.held { h265 = true } }

pub with_av1 : Encoders → Encoders
with_av1 e = record e { use_av1 = true; held = record e.held { av1 = true } }

pub with_jpeg : Encoders → Encoders
with_jpeg e = record e { use_jpeg = true }

-- The switch on the codec's name; a name with no case changes nothing.
pub select : Bytes → Attempt → Encoders → Encoders
select name attempt e =
    if text_eq name (codes "h264")
    then (if succeeds attempt then with_openh264 e else with_jpeg e)
    else if text_eq name (codes "h265")
    then (if succeeds attempt then with_h265 e else with_jpeg e)
    else if text_eq name (codes "vp9")
    then (if succeeds attempt then with_vp9 e else with_jpeg e)
    else if text_eq name (codes "av1")
    then (if succeeds attempt then with_av1 e else with_jpeg e)
    else if text_eq name (codes "jpeg")
    then with_jpeg e
    else e

-- A codec switch; WMF is closed unless JPEG was in use.
pub switch_codec : Bytes → Attempt → Encoders → Encoders
switch_codec name attempt e = select name attempt (tear_down e.use_jpeg e)

pub set_capture : Bool → Encoders → Encoders
set_capture on e = record e { held = record e.held { capture = on } }

-- A monitor switch; a capture that does not start leaves the loop with no capture.
pub switch_monitor : Bool → Attempt → Encoders → Encoders
switch_monitor false attempt e = set_capture false (tear_down false e)
switch_monitor true attempt e =
    let running = set_capture true (tear_down false e) in
    if succeeds attempt then with_openh264 running else with_jpeg running

-- The deferred calls at the end of the stream: OpenH264 or WMF by the flag, and the capture.
pub release : Encoders → Held
release e = record {
  capture = false;
  openh264 = if e.use_openh264 then false else e.held.openh264;
  wmf = if e.use_openh264 then e.held.wmf else false;
  vp9 = e.held.vp9;
  h265 = e.held.h265;
  av1 = e.held.av1;
}

-- The encoder that a frame goes to, in the order of the tests.
pub data Encoder : Type 0 where
  jpeg av1_encoder h265_encoder vp9_encoder openh264_encoder wmf_encoder : Encoder

pub encoder_of : Encoders → Encoder
encoder_of e =
    if e.use_jpeg
    then jpeg
    else if e.use_av1
    then av1_encoder
    else if e.use_h265
    then h265_encoder
    else if e.use_vp9
    then vp9_encoder
    else if e.use_openh264
    then openh264_encoder
    else wmf_encoder

-- `useJPEG = true; encoderClose()` when WMF took frames and gave none.
pub fall_back : Encoders → Encoders
fall_back e = record e { use_jpeg = true; held = record e.held { wmf = false } }
