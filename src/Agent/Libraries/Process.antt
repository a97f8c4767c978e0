-- ===== src/Agent/Libraries/Process.antt =====
-- Calls of the wrappers of the four encoder libraries in one process (agent/encode_vp9_windows.go,
-- encode_openh264_windows.go, encode_h265_windows.go, encode_av1_windows.go).
use oblireach.Base.{ℕ, Bool, true, false, Option, none, some, List, [], ◌∷◌, Bytes}
use oblireach.Agent.Libraries.{Loader}
use oblireach.Agent.Libraries.Vp9
use oblireach.Agent.Libraries.OpenH264
use oblireach.Agent.Libraries.H265
use oblireach.Agent.Libraries.Av1

-- A call of a wrapper of the library that it names.
pub data Call : Type 0 where
  vp9_open : Loader → Vp9.Libvpx → ℕ → ℕ → Call
  vp9_frame : Vp9.Libvpx → Bytes → ℕ → ℕ → Call
  vp9_close : Call
  vp9_test : Loader → Call
  openh264_open : Loader → OpenH264.Libopenh264 → ℕ → ℕ → ℕ → Call
  openh264_frame : OpenH264.Libopenh264 → Bytes → ℕ → ℕ → ℕ → Call
  openh264_rate : ℕ → Call
  openh264_close : Call
  openh264_test : Loader → Call
  h265_open : Loader → H265.Libx265 → ℕ → ℕ → Call
  h265_frame : H265.Libx265 → Bytes → ℕ → ℕ → Call
  h265_close : Call
  h265_test : Loader → Call
  av1_open : Loader → Av1.Libsvtav1 → ℕ → ℕ → Call
  av1_frame : Av1.Libsvtav1 → Bytes → ℕ → ℕ → Call
  av1_close : Call
  av1_test : Loader → Call

pub record Process : Type 0 where
  pub vp9 : Vp9.Vp9
  pub openh264 : OpenH264.OpenH264
  pub h265 : H265.H265
  pub av1 : Av1.Av1

unfoldable pub fresh : Process
fresh = record {
  vp9 = Vp9.unloaded;
  openh264 = OpenH264.unloaded;
  h265 = H265.unloaded;
  av1 = Av1.unloaded;
}

unfoldable pub perform : Call → Process → Process
perform (vp9_open l lib w h) p = record p { vp9 = (Vp9.vp9_encoder_init l lib w h p.vp9).0 }
perform (vp9_frame lib bgra w h) p = record p { vp9 = (Vp9.vp9_encode_frame lib bgra w h p.vp9).0 }
perform vp9_close p = record p { vp9 = Vp9.vp9_encoder_close p.vp9 }
perform (vp9_test l) p = record p { vp9 = (Vp9.vp9_available l p.vp9).0 }
perform (openh264_open l lib w h b) p = record p {
  openh264 = (OpenH264.openh264_init l lib w h b p.openh264).0;
}
perform (openh264_frame lib bgra w h t) p = record p {
  openh264 = (OpenH264.openh264_encode_frame lib bgra w h t p.openh264).0;
}
perform (openh264_rate b) p = record p { openh264 = OpenH264.openh264_set_bitrate b p.openh264 }
perform openh264_close p = record p { openh264 = OpenH264.openh264_close p.openh264 }
perform (openh264_test l) p = record p { openh264 = (OpenH264.openh264_available l p.openh264).0 }
perform (h265_open l lib w h) p = record p { h265 = (H265.h265_encoder_init l lib w h p.h265).0 }
perform (h265_frame lib bgra w h) p = record p {
  h265 = (H265.h265_encode_frame lib bgra w h p.h265).0;
}
perform h265_close p = record p { h265 = H265.h265_encoder_close p.h265 }
perform (h265_test l) p = record p { h265 = (H265.h265_available l p.h265).0 }
perform (av1_open l lib w h) p = record p { av1 = (Av1.av1_encoder_init l lib w h p.av1).0 }
perform (av1_frame lib bgra w h) p = record p { av1 = (Av1.av1_encode_frame lib bgra w h p.av1).0 }
perform av1_close p = record p { av1 = Av1.av1_encoder_close p.av1 }
perform (av1_test l) p = record p { av1 = (Av1.av1_available l p.av1).0 }

unfoldable pub perform_all : List Call → Process → Process
perform_all [] p = p
perform_all (c ∷ cs) p = perform_all cs (perform c p)

unfoldable pub has_image : Option Vp9.Image → Bool
has_image none = false
has_image (some i) = true
