-- ===== src/Agent/CrossSession/Examples.antt =====
-- A helper's messages at concrete inputs.
use oblireach.Base.{inl, arith, some, none, false, ℕ, ◌≡◌, refl, true, List, [], ◌∷◌, Bytes, codes}
use oblireach.Agent.Bitrate.{new_adaptive_bitrate}
use oblireach.Agent.CrossSession.{
  open_cross_session, relay_message, relay_frame, fail, pipe_type_frame, CrossSession, is_frame,
  relay_all,
}
use oblireach.Agent.CrossSession.Relaying.{video, audio, control, binaries}
use oblireach.Agent.CrossSession.Reading.{Window, all_bytes, windows_turns, relay_windows_carry}
use oblireach.Agent.Encoders.{openh264_encoder, av1_encoder}
use oblireach.Agent.StreamLoop.{frame_type}

abbrev json : ℕ → Bytes
json n = n ∷ []

abbrev first : CrossSession
first = record {
  bitrate = new_adaptive_bitrate 30;
  to_browser = [];
  to_helper = [];
  running = true;
}

abbrev sent : List Window
sent =
    record {
      whole = video openh264_encoder (codes "a") ∷ control (codes "{}") ∷ [];
      cut = 9 ∷ 0 ∷ [];
    }
    ∷ record { whole = audio (codes "b") ∷ video av1_encoder (codes "c") ∷ []; cut = [] }
    ∷ []

relay_windows_carry_example :
    let ts = windows_turns (λ t p. some 5) (all_bytes sent) in
    binaries (relay_all json json ts first).to_browser
    ≡ (2 ∷ codes "a") ∷ (6 ∷ codes "b") ∷ (5 ∷ codes "c") ∷ []
unfolding frame_type
relay_windows_carry_example =
    relay_windows_carry (λ t p. 5) json json sent first
      (
        ((omega arith, (omega arith, tt)), inl (omega arith)),
        (((omega arith, (omega arith, tt)), inl (omega arith)), tt),
      )
      refl

-- A stream needs an init message, and a frame that cannot be written ends it.
no_init : open_cross_session 2 [] true ≡ none
unfolding open_cross_session
no_init = refl

ended : (relay_message json json pipe_type_frame (codes "a") none first).running ≡ false
unfolding relay_message is_frame relay_frame fail
ended = refl
