-- ===== src/Agent/Encoders/Release.antt =====
-- Which encoder a codec switch ends in, and what is closed when the stream ends.
use oblireach.Base.{
  ◌≡◌, refl, true, false, Bytes, codes, text_eq, if◌then◌else◌, ◌||◌, Bool-cases, inl, inr, arith,
}
use oblireach.Agent.Encoders.{
  Encoders, Attempt, opened, succeeds, with_openh264, with_vp9, with_h265, with_av1, with_jpeg,
  select, switch_codec, Encoder, encoder_of, jpeg, av1_encoder, h265_encoder, vp9_encoder,
  openh264_encoder, wmf_encoder, release,
}
use oblireach.Agent.Encoders.Laws.{cleared}
use oblireach.Agent.Encoders.Flags.{Inv, Clear}

-- The codecs that a viewer can name.
pub data Codec : Type 0 where
  h264_codec h265_codec vp9_codec av1_codec jpeg_codec : Codec

abbrev pub name_of : Codec → Bytes
name_of h264_codec = codes "h264"
name_of h265_codec = codes "h265"
name_of vp9_codec = codes "vp9"
name_of av1_codec = codes "av1"
name_of jpeg_codec = codes "jpeg"

abbrev pub wanted : Codec → Encoder
wanted h264_codec = openh264_encoder
wanted h265_codec = h265_encoder
wanted vp9_codec = vp9_encoder
wanted av1_codec = av1_encoder
wanted jpeg_codec = jpeg

select_known :
    (c : Codec) (a : Attempt) (e : Encoders)
    → Clear e
    → encoder_of (select (name_of c) a e) ≡ (if succeeds a then wanted c else jpeg)
unfolding select encoder_of with_openh264 with_vp9 with_h265 with_av1 with_jpeg text_eq
select_known h264_codec a e c = elim (Bool-cases (succeeds a)) [
  | inl up ↦ rw up (ground (arith, c.no_jpeg))
  | inr down ↦ rw down refl
]
select_known h265_codec a e c = elim (Bool-cases (succeeds a)) [
  | inl up ↦ rw up (ground (arith, c.no_jpeg, c.no_av1))
  | inr down ↦ rw down refl
]
select_known vp9_codec a e c = elim (Bool-cases (succeeds a)) [
  | inl up ↦ rw up (ground (arith, c.no_jpeg, c.no_av1, c.no_h265))
  | inr down ↦ rw down refl
]
select_known av1_codec a e c = elim (Bool-cases (succeeds a)) [
  | inl up ↦ rw up (ground (arith, c.no_jpeg))
  | inr down ↦ rw down refl
]
select_known jpeg_codec a e c = ground arith

-- A switch to a codec that the code names ends in that codec's encoder, or in JPEG when the encoder
-- is not there or does not start.
pub switch_codec_known :
    (c : Codec) (a : Attempt) (e : Encoders)
    → Inv e
    → encoder_of (switch_codec (name_of c) a e) ≡ (if succeeds a then wanted c else jpeg)
unfolding switch_codec
switch_codec_known c a e i = select_known c a _ (cleared e i)

-- A switch to a name that the code has no case for leaves the stream with WMF, and WMF closed.
pub switch_codec_unknown :
    (name : Bytes) (a : Attempt) (e : Encoders)
    → Inv e
    → ((c : Codec) → text_eq name (name_of c) ≡ false)
    → (encoder_of (switch_codec name a e) ≡ wmf_encoder)
      × ((switch_codec name a e).held.wmf ≡ false)
unfolding switch_codec select encoder_of
switch_codec_unknown name a e i other =
    let c = cleared e i in
    rw (other h264_codec, other h265_codec, other vp9_codec, other av1_codec, other jpeg_codec)
      (ground (arith, c.no_jpeg, c.no_av1, c.no_h265, c.no_vp9, c.no_openh264), c.no_wmf)

-- The end of a stream whose frames go to OpenH264, to WMF or to JPEG leaves no library open.
pub release_complete :
    (e : Encoders)
    → Inv e
    → (e.use_vp9 || (e.use_h265 || e.use_av1)) ≡ false
    → release e ≡ record {
      capture = false;
      openh264 = false;
      wmf = false;
      vp9 = false;
      h265 = false;
      av1 = false;
    }
unfolding release
release_complete e i h =
    let h264 : (if e.use_openh264 then false else e.held.openh264) ≡ false =
      ground (arith, i.openh264_held) in
    let wmf : (if e.use_openh264 then e.held.wmf else false) ≡ false =
      ground (arith, i.wmf_alone) in
    let vp9 : e.use_vp9 ≡ false = ground arith in
    let h265 : e.use_h265 ≡ false = ground arith in
    let av1 : e.use_av1 ≡ false = ground arith in
    rw (h264, wmf, i.vp9_held, i.h265_held, i.av1_held, vp9, h265, av1) refl

-- The end of a stream leaves the VP9, H.265 or AV1 encoder open that it was using.
pub release_leaks :
    (e : Encoders)
    → Inv e
    → ((release e).vp9 ≡ e.use_vp9)
      × (((release e).h265 ≡ e.use_h265) × ((release e).av1 ≡ e.use_av1))
unfolding release
release_leaks e i = (i.vp9_held, (i.h265_held, i.av1_held))

-- A switch to H.264 on which OpenH264 starts sets its flag.
pub switch_to_h264 : (e : Encoders) → (switch_codec (codes "h264") opened e).use_openh264 ≡ true
unfolding switch_codec select with_openh264 succeeds text_eq
switch_to_h264 e = refl
