-- ===== src/Agent/Libraries/Vp9.antt =====
-- The VP9 encoder: agent/encode_vp9_windows.go. The planes of an image are given by their sizes, as
-- the library allocates them.
use oblireach.Base.{
  ℕ, ◌+◌, ◌*◌, ◌/◌, Bool, true, false, ◌&&◌, not, Option, none, some, List, [], ◌∷◌, Bytes, leb,
  is_empty, if◌then◌else◌,
}
use oblireach.Agent.Pixels.{planes}
use oblireach.Agent.Libraries.{
  Loader, Code, success, failure, is_success, pack, i420_size, max_buf, Encoded, not_initialised,
  panicked, Written, refused, past_end, wrap, zeroed,
}
use oblireach.Agent.Libraries.Loading.{vpx_load_dll}

pub record Image : Type 0 where
  pub y_size : ℕ
  pub uv_size : ℕ

-- What libvpx answers: the default configuration, the start of the codec, the image of a size, and
-- the packets for a frame at a time stamp, true for those of kind VPX_CODEC_CX_FRAME_PKT.
pub record Libvpx : Type 0 where
  pub configures : Bool
  pub starts : Bool
  pub alloc : ℕ → ℕ → Option Image
  pub encode : Bytes → ℕ → Option (List (Bool × Bytes))

pub record Vp9 : Type 0 where
  pub dll : Bool
  pub codec : Bool
  pub image : Option Image
  pub init : Bool
  pub pts : ℕ
  pub init_done : Bool
  pub i420_buf : Bytes

unfoldable pub unloaded : Vp9
unloaded = record {
  dll = false;
  codec = false;
  image = none;
  init = false;
  pts = 0;
  init_done = false;
  i420_buf = [];
}

-- The codec is open; without an image it is destroyed again.
unfoldable pub with_image : Option Image → Vp9 → Vp9 × Code
with_image none s = (record s { codec = false; image = none }, failure 4)
with_image (some i) s = (record s { codec = true; image = some i; init = true; pts = 0 }, success)

unfoldable pub vpx_encoder_init : Loader → Libvpx → ℕ → ℕ → Vp9 → Vp9 × Code
vpx_encoder_init l lib w h s =
    if s.init
    then (s, success)
    else let (loaded, code) = vpx_load_dll l s.dll in
      let s' = record s { dll = loaded } in
      if not (is_success code)
      then (s', failure 1)
      else if not lib.configures
      then (s', failure 2)
      else if not lib.starts
      then (s', failure 3)
      else with_image (lib.alloc w h) s'

-- The packets that are copied.
unfoldable pub frames : List (Bool × Bytes) → List Bytes
frames [] = []
frames ((true, p) ∷ ps) = p ∷ frames ps
frames ((false, p) ∷ ps) = frames ps

unfoldable pub encoded : Option (List (Bool × Bytes)) → ℕ → Vp9 → Vp9 × Written
encoded none cap s = (s, refused 2)
encoded (some ps) cap s = (record s { pts = s.pts + 1 }, pack cap [] (frames ps))

unfoldable pub on_image : Option Image → Libvpx → Bytes → ℕ → ℕ → ℕ → Vp9 → Vp9 × Written
on_image none lib i420 w h cap s = (s, refused 1)
on_image (some i) lib i420 w h cap s =
    if leb (w * h) i.y_size && leb ((w / 2) * (h / 2)) i.uv_size
    then encoded (lib.encode i420 s.pts) cap s
    else (s, past_end)

unfoldable pub vpx_encode_frame : Libvpx → Bytes → ℕ → ℕ → ℕ → Vp9 → Vp9 × Written
vpx_encode_frame lib i420 w h cap s =
    if not s.init then (s, refused 1) else on_image s.image lib i420 w h cap s

unfoldable pub vpx_encoder_close : Vp9 → Vp9
vpx_encoder_close s = if s.init then record s { codec = false; image = none; init = false } else s

-- vp9Available
unfoldable pub vp9_available : Loader → Vp9 → Vp9 × Bool
vp9_available l s =
    let (loaded, code) = vpx_load_dll l s.dll in (record s { dll = loaded }, is_success code)

-- vp9EncoderInit
unfoldable pub vp9_encoder_init : Loader → Libvpx → ℕ → ℕ → Vp9 → Vp9 × Code
vp9_encoder_init l lib w h s =
    let (s', code) = vpx_encoder_init l lib w h s in
    if is_success code
    then (record s' { init_done = true; i420_buf = zeroed (i420_size w h) }, success)
    else (s', code)

-- `&vp9I420Buf[0]` panics on an empty buffer.
unfoldable pub on_planes : Option Bytes → Libvpx → ℕ → ℕ → Vp9 → Vp9 × Encoded
on_planes none lib w h s = (s, panicked)
on_planes (some i420) lib w h s =
    let t = record s { i420_buf = i420 } in
    let (s', out) = vpx_encode_frame lib i420 w h max_buf t in
    if is_empty i420 then (t, panicked) else (s', wrap out)

-- vp9EncodeFrame
unfoldable pub vp9_encode_frame : Libvpx → Bytes → ℕ → ℕ → Vp9 → Vp9 × Encoded
vp9_encode_frame lib bgra w h s =
    if not s.init_done
    then (s, not_initialised)
    else on_planes (planes bgra w h s.i420_buf) lib w h s

-- vp9EncoderClose
unfoldable pub vp9_encoder_close : Vp9 → Vp9
vp9_encoder_close s = if s.init_done then record (vpx_encoder_close s) { init_done = false } else s
