-- ===== src/Agent/Libraries/Lifecycle.antt =====
-- What the encoder libraries hold between calls of their wrappers (agent/encode_vp9_windows.go,
-- encode_openh264_windows.go, encode_h265_windows.go, encode_av1_windows.go).
use oblireach.Base.{All, false, ℕ, ◌≡◌, refl, List, [], ◌∷◌, Bytes, arith}
use oblireach.Agent.Libraries.{Loader, is_success}
use oblireach.Agent.Libraries.Vp9
use oblireach.Agent.Libraries.OpenH264
use oblireach.Agent.Libraries.H265
use oblireach.Agent.Libraries.Av1
use oblireach.Agent.Libraries.Process.{
  Call, vp9_open, vp9_frame, vp9_close, vp9_test, openh264_open, openh264_frame, openh264_rate,
  openh264_close, openh264_test, h265_open, h265_frame, h265_close, h265_test, av1_open, av1_frame,
  av1_close, av1_test, Process, fresh, perform, perform_all, has_image,
}

-- The flag of a wrapper tells what its library holds.
pub record Vp9Accounted (s : Vp9.Vp9) : Type 0 where
  pub same_init : s.init ≡ s.init_done
  pub same_codec : s.codec ≡ s.init_done
  pub same_image : has_image s.image ≡ s.init_done

pub record OpenH264Accounted (s : OpenH264.OpenH264) : Type 0 where
  pub same_encoder : s.encoder ≡ s.init_done

pub record H265Accounted (s : H265.H265) : Type 0 where
  pub same_enc : s.enc ≡ s.init_done
  pub same_pic : s.pic ≡ s.init_done
  pub same_param : s.param ≡ s.init_done

pub record Av1Accounted (s : Av1.Av1) : Type 0 where
  pub same_enc : s.enc ≡ s.init_done
  pub same_init : s.init ≡ s.init_done

pub record Accounted (p : Process) : Type 0 where
  pub vp9 : Vp9Accounted p.vp9
  pub openh264 : OpenH264Accounted p.openh264
  pub h265 : H265Accounted p.h265
  pub av1 : Av1Accounted p.av1

vp9_init-Accounted :
    (l : Loader) (lib : Vp9.Libvpx) (w h : ℕ) (s : Vp9.Vp9)
    → Vp9Accounted s
    → Vp9Accounted (Vp9.vp9_encoder_init l lib w h s).0
unfolding Vp9.vp9_encoder_init Vp9.vpx_encoder_init Vp9.with_image is_success has_image
vp9_init-Accounted l lib w h s a = ground arith

vp9_frame-Accounted :
    (lib : Vp9.Libvpx) (bgra : Bytes) (w h : ℕ) (s : Vp9.Vp9)
    → Vp9Accounted s
    → Vp9Accounted (Vp9.vp9_encode_frame lib bgra w h s).0
unfolding Vp9.vp9_encode_frame Vp9.on_planes Vp9.vpx_encode_frame Vp9.on_image Vp9.encoded
vp9_frame-Accounted lib bgra w h s a = ground arith

vp9_close-Accounted : (s : Vp9.Vp9) → Vp9Accounted s → Vp9Accounted (Vp9.vp9_encoder_close s)
unfolding Vp9.vp9_encoder_close Vp9.vpx_encoder_close has_image
vp9_close-Accounted s a = ground arith

-- A creation that fails hands out nothing, and one that succeeds a handle, as the two libraries
-- document; the code relies on both.
abbrev pub IsDocumented : Call → Type 0
IsDocumented (openh264_open l lib w h b) = (lib.creates ≡ false) → lib.hands_encoder ≡ false
IsDocumented (av1_open l lib w h) = lib.hands_handle ≡ lib.has_handle
IsDocumented c = Unit {0}

openh264_init-Accounted :
    (l : Loader) (lib : OpenH264.Libopenh264) (w h b : ℕ) (s : OpenH264.OpenH264)
    → ((lib.creates ≡ false) → lib.hands_encoder ≡ false)
    → OpenH264Accounted s
    → OpenH264Accounted (OpenH264.openh264_init l lib w h b s).0
unfolding OpenH264.openh264_init OpenH264.oh_encoder_init is_success
openh264_init-Accounted l lib w h b s d a = ground arith

openh264_frame-Accounted :
    (lib : OpenH264.Libopenh264) (bgra : Bytes) (w h t : ℕ) (s : OpenH264.OpenH264)
    → OpenH264Accounted s
    → OpenH264Accounted (OpenH264.openh264_encode_frame lib bgra w h t s).0
unfolding OpenH264.openh264_encode_frame OpenH264.on_planes
openh264_frame-Accounted lib bgra w h t s a = ground arith

openh264_close-Accounted :
    (s : OpenH264.OpenH264) → OpenH264Accounted s → OpenH264Accounted (OpenH264.openh264_close s)
unfolding OpenH264.openh264_close OpenH264.oh_encoder_close
openh264_close-Accounted s a = ground arith

openh264_rate-Accounted :
    (b : ℕ) (s : OpenH264.OpenH264)
    → OpenH264Accounted s
    → OpenH264Accounted (OpenH264.openh264_set_bitrate b s)
unfolding OpenH264.openh264_set_bitrate OpenH264.oh_set_bitrate
openh264_rate-Accounted b s a = ground arith

h265_init-Accounted :
    (l : Loader) (lib : H265.Libx265) (w h : ℕ) (s : H265.H265)
    → H265Accounted s
    → H265Accounted (H265.h265_encoder_init l lib w h s).0
unfolding H265.h265_encoder_init H265.x265_encoder_init is_success
h265_init-Accounted l lib w h s a = ground arith

h265_frame-Accounted :
    (lib : H265.Libx265) (bgra : Bytes) (w h : ℕ) (s : H265.H265)
    → H265Accounted s
    → H265Accounted (H265.h265_encode_frame lib bgra w h s).0
unfolding H265.h265_encode_frame H265.on_planes
h265_frame-Accounted lib bgra w h s a = ground arith

h265_close-Accounted : (s : H265.H265) → H265Accounted s → H265Accounted (H265.h265_encoder_close s)
unfolding H265.h265_encoder_close H265.x265_encoder_close
h265_close-Accounted s a = ground arith

av1_init-Accounted :
    (l : Loader) (lib : Av1.Libsvtav1) (w h : ℕ) (s : Av1.Av1)
    → lib.hands_handle ≡ lib.has_handle
    → Av1Accounted s
    → Av1Accounted (Av1.av1_encoder_init l lib w h s).0
unfolding Av1.av1_encoder_init Av1.av1_init is_success
av1_init-Accounted l lib w h s d a = ground arith

av1_frame-Accounted :
    (lib : Av1.Libsvtav1) (bgra : Bytes) (w h : ℕ) (s : Av1.Av1)
    → Av1Accounted s
    → Av1Accounted (Av1.av1_encode_frame lib bgra w h s).0
unfolding Av1.av1_encode_frame Av1.on_planes Av1.av1_encode
av1_frame-Accounted lib bgra w h s a = ground arith

av1_close-Accounted : (s : Av1.Av1) → Av1Accounted s → Av1Accounted (Av1.av1_encoder_close s)
unfolding Av1.av1_encoder_close Av1.av1_close
av1_close-Accounted s a = ground arith

perform-Accounted :
    (c : Call) (p : Process) → IsDocumented c → Accounted p → Accounted (perform c p)
unfolding perform Vp9.vp9_available OpenH264.openh264_available H265.h265_available
    Av1.av1_available
perform-Accounted (vp9_open l lib w h) p d a = record {
  vp9 = vp9_init-Accounted l lib w h p.vp9 a.vp9;
  openh264 = a.openh264;
  h265 = a.h265;
  av1 = a.av1;
}
perform-Accounted (vp9_frame lib bgra w h) p d a = record {
  vp9 = vp9_frame-Accounted lib bgra w h p.vp9 a.vp9;
  openh264 = a.openh264;
  h265 = a.h265;
  av1 = a.av1;
}
perform-Accounted vp9_close p d a = record {
  vp9 = vp9_close-Accounted p.vp9 a.vp9;
  openh264 = a.openh264;
  h265 = a.h265;
  av1 = a.av1;
}
perform-Accounted (vp9_test l) p d a = record {
  vp9 = record {
    same_init = a.vp9.same_init;
    same_codec = a.vp9.same_codec;
    same_image = a.vp9.same_image;
  };
  openh264 = a.openh264;
  h265 = a.h265;
  av1 = a.av1;
}
perform-Accounted (openh264_open l lib w h b) p d a = record {
  vp9 = a.vp9;
  openh264 = openh264_init-Accounted l lib w h b p.openh264 d a.openh264;
  h265 = a.h265;
  av1 = a.av1;
}
perform-Accounted (openh264_frame lib bgra w h t) p d a = record {
  vp9 = a.vp9;
  openh264 = openh264_frame-Accounted lib bgra w h t p.openh264 a.openh264;
  h265 = a.h265;
  av1 = a.av1;
}
perform-Accounted (openh264_rate b) p d a = record {
  vp9 = a.vp9;
  openh264 = openh264_rate-Accounted b p.openh264 a.openh264;
  h265 = a.h265;
  av1 = a.av1;
}
perform-Accounted openh264_close p d a = record {
  vp9 = a.vp9;
  openh264 = openh264_close-Accounted p.openh264 a.openh264;
  h265 = a.h265;
  av1 = a.av1;
}
perform-Accounted (openh264_test l) p d a = record {
  vp9 = a.vp9;
  openh264 = record { same_encoder = a.openh264.same_encoder };
  h265 = a.h265;
  av1 = a.av1;
}
perform-Accounted (h265_open l lib w h) p d a = record {
  vp9 = a.vp9;
  openh264 = a.openh264;
  h265 = h265_init-Accounted l lib w h p.h265 a.h265;
  av1 = a.av1;
}
perform-Accounted (h265_frame lib bgra w h) p d a = record {
  vp9 = a.vp9;
  openh264 = a.openh264;
  h265 = h265_frame-Accounted lib bgra w h p.h265 a.h265;
  av1 = a.av1;
}
perform-Accounted h265_close p d a = record {
  vp9 = a.vp9;
  openh264 = a.openh264;
  h265 = h265_close-Accounted p.h265 a.h265;
  av1 = a.av1;
}
perform-Accounted (h265_test l) p d a = record {
  vp9 = a.vp9;
  openh264 = a.openh264;
  h265 = record {
    same_enc = a.h265.same_enc;
    same_pic = a.h265.same_pic;
    same_param = a.h265.same_param;
  };
  av1 = a.av1;
}
perform-Accounted (av1_open l lib w h) p d a = record {
  vp9 = a.vp9;
  openh264 = a.openh264;
  h265 = a.h265;
  av1 = av1_init-Accounted l lib w h p.av1 d a.av1;
}
perform-Accounted (av1_frame lib bgra w h) p d a = record {
  vp9 = a.vp9;
  openh264 = a.openh264;
  h265 = a.h265;
  av1 = av1_frame-Accounted lib bgra w h p.av1 a.av1;
}
perform-Accounted av1_close p d a = record {
  vp9 = a.vp9;
  openh264 = a.openh264;
  h265 = a.h265;
  av1 = av1_close-Accounted p.av1 a.av1;
}
perform-Accounted (av1_test l) p d a = record {
  vp9 = a.vp9;
  openh264 = a.openh264;
  h265 = a.h265;
  av1 = record { same_enc = a.av1.same_enc; same_init = a.av1.same_init };
}

perform_all-Accounted :
    (cs : List Call) (p : Process)
    → All IsDocumented cs
    → Accounted p
    → Accounted (perform_all cs p)
unfolding perform_all
perform_all-Accounted [] p d a = a
perform_all-Accounted (c ∷ cs) p d a =
    perform_all-Accounted cs (perform c p) d.1 (perform-Accounted c p d.0 a)

-- In whatever order the wrappers are called, and whatever the libraries answer, as long as OpenH264
-- hands out no encoder when a creation fails and SVT-AV1 a handle just when one succeeds: a library
-- holds its codec, image, picture, parameters or handle exactly while its wrapper's flag is set.
pub perform_all-fresh-Accounted :
    (cs : List Call) → All IsDocumented cs → Accounted (perform_all cs fresh)
unfolding fresh Vp9.unloaded OpenH264.unloaded H265.unloaded Av1.unloaded has_image
perform_all-fresh-Accounted cs d = perform_all-Accounted cs fresh d (record {
  vp9 = record { same_init = refl; same_codec = refl; same_image = refl };
  openh264 = record { same_encoder = refl };
  h265 = record { same_enc = refl; same_pic = refl; same_param = refl };
  av1 = record { same_enc = refl; same_init = refl };
})
