-- ===== src/Agent/Libraries/Loading.antt =====
-- Loading the four libraries (agent/encode_vp9_windows.go, encode_openh264_windows.go,
-- encode_h265_windows.go, encode_av1_windows.go).
use oblireach.Base.{Bool, true, false, ◌&&◌, ◌||◌, not, [], ◌∷◌, codes, if◌then◌else◌}
use oblireach.Agent.Libraries.{Loader, Code, success, failure, all_of, finds}

-- The library's handle afterwards, and the code. A library that lacks a symbol is freed again.
unfoldable pub load_with : Bool → Bool → Bool → Bool × Code
load_with loaded found complete =
    if loaded
    then (true, success)
    else if not found
    then (false, failure 1)
    else if not complete
    then (false, failure 2)
    else (true, success)

unfoldable pub vpx_load_dll : Loader → Bool → Bool × Code
vpx_load_dll l loaded =
    load_with loaded (finds l (codes "libvpx-1.dll" ∷ codes "libvpx.dll" ∷ [])) (
      all_of l.exports (
        codes "vpx_codec_vp9_cx"
        ∷ codes "vpx_codec_enc_config_default"
        ∷ codes "vpx_codec_enc_init_ver"
        ∷ codes "vpx_codec_encode"
        ∷ codes "vpx_codec_get_cx_data"
        ∷ codes "vpx_codec_destroy"
        ∷ codes "vpx_img_alloc"
        ∷ codes "vpx_img_free"
        ∷ codes "vpx_codec_control_"
        ∷ []))

unfoldable pub oh_load_dll : Loader → Bool → Bool × Code
oh_load_dll l loaded =
    load_with loaded (finds l (codes "openh264-2.4.1-win64.dll" ∷ codes "openh264.dll" ∷ []))
      (all_of l.exports (codes "WelsCreateSVCEncoder" ∷ codes "WelsDestroySVCEncoder" ∷ []))

-- x265_param_parse may be missing, and the name of x265_encoder_open may carry the build number.
unfoldable pub x265_load_dll : Loader → Bool → Bool × Code
x265_load_dll l loaded =
    load_with loaded (finds l (codes "libx265-215.dll" ∷ codes "libx265.dll" ∷ [])) (
      all_of l.exports (
        codes "x265_param_alloc"
        ∷ codes "x265_param_free"
        ∷ codes "x265_param_default_preset"
        ∷ codes "x265_picture_alloc"
        ∷ codes "x265_picture_free"
        ∷ codes "x265_picture_init"
        ∷ codes "x265_encoder_encode"
        ∷ codes "x265_encoder_close"
        ∷ [])
      && (l.exports (codes "x265_encoder_open_215") || l.exports (codes "x265_encoder_open")))

-- svt_av1_enc_parse_parameter may be missing.
unfoldable pub av1_load_dll : Loader → Bool → Bool × Code
av1_load_dll l loaded =
    load_with loaded
      (finds l (codes "libSvtAv1Enc-2.dll" ∷ codes "SvtAv1Enc.dll" ∷ codes "libSvtAv1Enc.dll" ∷ []))
      (all_of l.exports (
        codes "svt_av1_enc_init_handle"
        ∷ codes "svt_av1_enc_set_parameter"
        ∷ codes "svt_av1_enc_init"
        ∷ codes "svt_av1_enc_send_picture"
        ∷ codes "svt_av1_enc_get_packet"
        ∷ codes "svt_av1_enc_release_out_buffer"
        ∷ codes "svt_av1_enc_deinit"
        ∷ codes "svt_av1_enc_deinit_handle"
        ∷ []))
