-- ===== src/Agent/StreamLoop/Steps/Kept.antt =====
-- The invariant of a stream, and a frame that is encoded and sent.
use oblireach.Base.{
  ℕ, ◌≡◌, refl, true, false, Option, none, some, Bytes, ltb, leb, ◌==◌, ◌&&◌, not, is_empty,
  Bool-cases, ap, sym, ◌∙◌, inl, inr,
}
use oblireach.Agent.Bitrate.{report}
use oblireach.Agent.Bitrate.Laws.{Within, report-Within}
use oblireach.Agent.Encoders.{
  Encoder, encoder_of, jpeg, av1_encoder, h265_encoder, vp9_encoder, openh264_encoder, wmf_encoder,
}
use oblireach.Agent.Encoders.Laws.{fall_back-Inv}
use oblireach.Agent.Encoders.Flags.{start-Inv}
use oblireach.Agent.Encoders.Flags
use oblireach.Agent.StreamLoop.{
  jpeg_fallback_threshold, Stream, Encoded, encode_error, produced, send, finish, send_and_adapt,
  stamp, no_output, keeps_empty,
}
use oblireach.Agent.StreamLoop.Steps.{on_encoded}

-- The flags and the libraries agree, the bitrate is within its bounds, and input is not left blocked
-- by a stream that has ended.
pub record Inv (s : Stream) : Type 0 where
  pub encoders_agree : Flags.Inv s.encoders
  pub bitrate_within : Within s.bitrate
  pub released : s.running ≡ false → s.blocked ≡ false

-- Only these four fields matter to the invariant.
pub same_Inv :
    (s t : Stream)
    → Inv s
    → t.encoders ≡ s.encoders
    → t.bitrate ≡ s.bitrate
    → t.running ≡ s.running
    → t.blocked ≡ s.blocked
    → Inv t
same_Inv s t i he hb hr hk = record {
  encoders_agree = rw he i.encoders_agree;
  bitrate_within = rw hb i.bitrate_within;
  released = λ h. hk ∙ i.released (sym hr ∙ h);
}

pub send_and_adapt-Inv :
    (f : Bytes) (w : Option ℕ) (s : Stream) → s.running ≡ true → Inv s → Inv (send_and_adapt f w s)
unfolding send_and_adapt send finish
send_and_adapt-Inv f none s r i = record {
  encoders_agree = i.encoders_agree;
  bitrate_within = i.bitrate_within;
  released = λ h. refl;
}
send_and_adapt-Inv f (some d) s r i =
    let reported : Inv (record s { bitrate = (report d s.bitrate).0 }) = record {
      encoders_agree = i.encoders_agree;
      bitrate_within = report-Within d s.bitrate i.bitrate_within;
      released = i.released;
    } in
    elim (Bool-cases (ltb 0 (report d s.bitrate).1)) [
      | inl changed ↦ rw changed (same_Inv _ _ reported refl refl refl refl)
      | inr kept ↦ rw kept (same_Inv _ _ reported refl refl refl refl)
    ]

pub stamp-Inv : (e : Encoder) (a : Encoded) (s : Stream) → Inv s → Inv (stamp e a s)
unfolding stamp
stamp-Inv openh264_encoder a s i = same_Inv s _ i refl refl refl refl
stamp-Inv wmf_encoder (produced b) s i = same_Inv s _ i refl refl refl refl
stamp-Inv wmf_encoder encode_error s i = i
stamp-Inv jpeg a s i = i
stamp-Inv vp9_encoder a s i = i
stamp-Inv h265_encoder a s i = i
stamp-Inv av1_encoder a s i = i

pub stamp_rest :
    (e : Encoder) (a : Encoded) (s : Stream)
    → ((stamp e a s).encoders ≡ s.encoders) × ((stamp e a s).running ≡ s.running)
unfolding stamp
stamp_rest openh264_encoder a s = (refl, refl)
stamp_rest wmf_encoder (produced b) s = (refl, refl)
stamp_rest wmf_encoder encode_error s = (refl, refl)
stamp_rest jpeg a s = (refl, refl)
stamp_rest vp9_encoder a s = (refl, refl)
stamp_rest h265_encoder a s = (refl, refl)
stamp_rest av1_encoder a s = (refl, refl)

pub no_output-Inv :
    (e : Encoder) (n m : ℕ) (s : Stream)
    → encoder_of s.encoders ≡ e
    → Inv s
    → Inv (no_output e n m s)
unfolding no_output send
no_output-Inv wmf_encoder n m s h i = elim (Bool-cases (leb jpeg_fallback_threshold n && m == 0)) [
  | inl silent ↦ rw silent (record {
    encoders_agree = fall_back-Inv s.encoders i.encoders_agree h;
    bitrate_within = i.bitrate_within;
    released = i.released;
  })
  | inr early ↦ rw early i
]
no_output-Inv jpeg n m s h i = i
no_output-Inv openh264_encoder n m s h i = i
no_output-Inv vp9_encoder n m s h i = i
no_output-Inv h265_encoder n m s h i = i
no_output-Inv av1_encoder n m s h i = i

pub on_encoded-Inv :
    (a : Encoded) (n m : ℕ) (w : Option ℕ) (s : Stream)
    → s.running ≡ true
    → Inv s
    → Inv (on_encoded a n m w s)
unfolding on_encoded
on_encoded-Inv encode_error n m w s r i = stamp-Inv (encoder_of s.encoders) encode_error s i
on_encoded-Inv (produced b) n m w s r i =
    let e = encoder_of s.encoders in
    let stamped = stamp-Inv e (produced b) s i in
    let rest = stamp_rest e (produced b) s in
    elim (Bool-cases (is_empty b && not (keeps_empty e))) [
      | inl nothing ↦ rw nothing (no_output-Inv e n m _ (ap encoder_of rest.0) stamped)
      | inr some_bytes ↦ rw some_bytes (send_and_adapt-Inv _ w _ (rest.1 ∙ r) stamped)
    ]
