-- ===== src/Agent/Libraries/Examples.antt =====
-- The VP9 wrapper on frames of two rows of two pixels.
use oblireach.Base.{◌*◌, ◌/◌, ◌≡◌, refl, true, false, some, List, [], ◌∷◌, All, arith}
use oblireach.Agent.Pixels.Examples.{frame}
use oblireach.Agent.Libraries.{Loader, success, is_success, any_of, all_of, finds, overran}
use oblireach.Agent.Libraries.Loading.{vpx_load_dll, load_with}
use oblireach.Agent.Libraries.Vp9
use oblireach.Agent.Libraries.OpenH264
use oblireach.Agent.Libraries.Av1
use oblireach.Agent.Libraries.Process.{
  Call, vp9_open, vp9_frame, vp9_close, h265_close, openh264_open, av1_open, av1_frame, av1_close,
  fresh, perform_all,
}
use oblireach.Agent.Libraries.Lifecycle.{Accounted, perform_all-fresh-Accounted}
use oblireach.Agent.Libraries.FrameSafety.{
  AllocatesEnough, ReturnsShort, IsSafe, outcomes, opened_frames-IsSafe, reopened_overrun,
}

abbrev loader : Loader
loader = record { by_name = λ _. true; beside = λ _. false; exports = λ _. true }

abbrev libvpx : Vp9.Libvpx
libvpx = record {
  configures = true;
  starts = true;
  alloc = λ w h. some (record { y_size = w * h; uv_size = (w / 2) * (h / 2) });
  encode = λ i420 pts. some ((true, 1 ∷ 2 ∷ []) ∷ []);
}

allocates : AllocatesEnough libvpx
unfolding AllocatesEnough
allocates w h i e =
    let same : record { y_size = w * h; uv_size = (w / 2) * (h / 2) } ≡ i = cc in
    rw (← same) (omega arith)

returns : ReturnsShort libvpx
unfolding ReturnsShort Vp9.frames
returns i420 pts ps e =
    let same : (true, 1 ∷ 2 ∷ []) ∷ [] ≡ ps = cc in rw (← same) (omega arith, tt)

opened_frames-IsSafe_example : All IsSafe (
    outcomes libvpx 2 2
      (frame ∷ frame ∷ [])
      (Vp9.vp9_encoder_init loader libvpx 2 2 Vp9.unloaded).0)
unfolding Vp9.vp9_encoder_init Vp9.vpx_encoder_init Vp9.with_image Vp9.unloaded vpx_load_dll
    load_with is_success any_of all_of finds
opened_frames-IsSafe_example =
    opened_frames-IsSafe loader libvpx 2 2 Vp9.unloaded (frame ∷ frame ∷ []) allocates returns
      (omega arith) refl refl (refl, (refl, tt))

abbrev small : Vp9.Vp9
small = record {
  dll = true;
  codec = true;
  image = some (record { y_size = 1; uv_size = 0 });
  init = true;
  pts = 0;
  init_done = true;
  i420_buf = 0 ∷ [];
}

reopened_overrun_example :
    ((Vp9.vp9_encoder_init loader libvpx 2 2 small).1 ≡ success)
    × ((Vp9.vp9_encode_frame libvpx frame 2 2 (Vp9.vp9_encoder_init loader libvpx 2 2 small).0).1
        ≡ overran)
reopened_overrun_example =
    reopened_overrun loader libvpx 2 2 small (record { y_size = 1; uv_size = 0 }) frame refl refl
      (omega arith) refl

abbrev libopenh264 : OpenH264.Libopenh264
libopenh264 = record {
  creates = false;
  hands_encoder = false;
  initialises = true;
  encode = λ i420 w h t. some [];
}

abbrev libsvtav1 : Av1.Libsvtav1
libsvtav1 = record {
  has_handle = true;
  hands_handle = true;
  takes_params = true;
  starts = true;
  takes_frame = λ i420 pts. true;
  ready = λ i420 pts. [];
}

-- An OpenH264 that cannot be created, and an AV1 that works.
abbrev calls : List Call
calls =
    vp9_open loader libvpx 2 2
    ∷ vp9_frame libvpx frame 2 2
    ∷ vp9_close
    ∷ h265_close
    ∷ openh264_open loader libopenh264 2 2 5
    ∷ av1_open loader libsvtav1 2 2
    ∷ av1_frame libsvtav1 frame 2 2
    ∷ av1_close
    ∷ []

perform_all-fresh-Accounted_example : Accounted (perform_all calls fresh)
perform_all-fresh-Accounted_example =
    perform_all-fresh-Accounted calls (tt, (tt, (tt, (tt, ((λ e. refl), (refl, (tt, (tt, tt))))))))
