-- ===== src/Agent/Encoders/Laws.antt =====
-- The encoders' flags at a switch of codec or monitor, agent/stream.go.
use oblireach.Base.{
  ◌≡◌, Bool, true, false, Bytes, codes, text_eq, if◌then◌else◌, Bool-cases, inl, inr, arith,
}
use oblireach.Agent.Encoders.{
  Encoders, Attempt, succeeds, tear_down, set_capture, with_openh264, with_vp9, with_h265, with_av1,
  with_jpeg, select, switch_codec, switch_monitor, fall_back, encoder_of, wmf_encoder,
}
use oblireach.Agent.Encoders.Flags.{
  Inv, Clear, tear_down-Clear, with_openh264-Inv, with_vp9-Inv, with_h265-Inv, with_av1-Inv,
  with_jpeg-Inv, Clear-Inv,
}

or_jpeg-Inv :
    (a : Attempt) (with_codec : Encoders → Encoders) (e : Encoders)
    → ((f : Encoders) → Clear f → Inv (with_codec f))
    → Clear e
    → Inv (if succeeds a then with_codec e else with_jpeg e)
or_jpeg-Inv a with_codec e h c = elim (Bool-cases (succeeds a)) [
  | inl up ↦ rw up (h e c)
  | inr down ↦ rw down (with_jpeg-Inv e c)
]

select-Inv : (name : Bytes) (a : Attempt) (e : Encoders) → Clear e → Inv (select name a e)
unfolding select
select-Inv name a e c = elim (Bool-cases (text_eq name (codes "h264"))) [
  | inl found ↦ rw found (or_jpeg-Inv a with_openh264 e with_openh264-Inv c)
  | inr no_h264 ↦ elim (Bool-cases (text_eq name (codes "h265"))) [
    | inl found ↦ rw (no_h264, found) (or_jpeg-Inv a with_h265 e with_h265-Inv c)
    | inr no_h265 ↦ elim (Bool-cases (text_eq name (codes "vp9"))) [
      | inl found ↦ rw (no_h264, no_h265, found) (or_jpeg-Inv a with_vp9 e with_vp9-Inv c)
      | inr no_vp9 ↦ elim (Bool-cases (text_eq name (codes "av1"))) [
        | inl found ↦ rw (no_h264, no_h265, no_vp9, found) (or_jpeg-Inv a with_av1 e with_av1-Inv c)
        | inr no_av1 ↦ elim (Bool-cases (text_eq name (codes "jpeg"))) [
          | inl found ↦ rw (no_h264, no_h265, no_vp9, no_av1, found) (with_jpeg-Inv e c)
          | inr no_jpeg ↦ rw (no_h264, no_h265, no_vp9, no_av1, no_jpeg) (Clear-Inv e c)
        ]
      ]
    ]
  ]
]

-- JPEG excludes WMF, so a switch away from JPEG has no WMF to close.
jpeg_without_wmf : (e : Encoders) → Inv e → e.use_jpeg ≡ true → e.held.wmf ≡ false
jpeg_without_wmf e i h = elim (Bool-cases e.held.wmf) [
  | inl on ↦ let none_set = i.wmf_alone on in absurd (ground arith)
  | inr off ↦ off
]

pub cleared : (e : Encoders) → Inv e → Clear (tear_down e.use_jpeg e)
cleared e i = tear_down-Clear e.use_jpeg e i (jpeg_without_wmf e i)

pub all_cleared : (e : Encoders) → Inv e → Clear (tear_down false e)
all_cleared e i = tear_down-Clear false e i (λ h. absurd cc)

set_capture-Clear : (on : Bool) (e : Encoders) → Clear e → Clear (set_capture on e)
unfolding set_capture
set_capture-Clear on e c = record {
  no_openh264 = c.no_openh264;
  no_vp9 = c.no_vp9;
  no_h265 = c.no_h265;
  no_av1 = c.no_av1;
  no_jpeg = c.no_jpeg;
  no_wmf = c.no_wmf;
}

-- A codec switch keeps the flags and the libraries in step, whatever name is asked for.
pub switch_codec-Inv :
    (name : Bytes) (a : Attempt) (e : Encoders) → Inv e → Inv (switch_codec name a e)
unfolding switch_codec
switch_codec-Inv name a e i = select-Inv name a (tear_down e.use_jpeg e) (cleared e i)

-- So does a monitor switch, whether the capture starts or not.
pub switch_monitor-Inv :
    (s : Bool) (a : Attempt) (e : Encoders) → Inv e → Inv (switch_monitor s a e)
unfolding switch_monitor
switch_monitor-Inv false a e i = Clear-Inv _ (set_capture-Clear false _ (all_cleared e i))
switch_monitor-Inv true a e i =
    or_jpeg-Inv a with_openh264 _ with_openh264-Inv (set_capture-Clear true _ (all_cleared e i))

-- And the fall back to JPEG of a stream whose frames go to WMF.
pub fall_back-Inv : (e : Encoders) → Inv e → encoder_of e ≡ wmf_encoder → Inv (fall_back e)
unfolding fall_back encoder_of
fall_back-Inv e i h = record {
  openh264_held = i.openh264_held;
  vp9_held = i.vp9_held;
  h265_held = i.h265_held;
  av1_held = i.av1_held;
  one_flag = ground arith;
  wmf_alone = λ k. cc;
}
