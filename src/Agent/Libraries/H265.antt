-- ===== src/Agent/Libraries/H265.antt =====
-- The H.265 encoder: agent/encode_h265_windows.go.
use oblireach.Base.{
  ℕ, Bool, true, false, not, Option, none, some, List, [], Bytes, is_empty, if◌then◌else◌,
}
use oblireach.Agent.Pixels.{planes}
use oblireach.Agent.Libraries.{
  Loader, Code, success, failure, is_success, pack, i420_size, max_buf, Encoded, not_initialised,
  panicked, Written, refused, wrap, zeroed,
}
use oblireach.Agent.Libraries.Loading.{x265_load_dll}

-- What x265 answers: whether the parameters are allocated and take the preset, whether the encoder
-- opens and a picture is allocated, and the NAL units for a frame, none for one that is buffered.
pub record Libx265 : Type 0 where
  pub has_param : Bool
  pub takes_preset : Bool
  pub opens : Bool
  pub has_picture : Bool
  pub encode : Bytes → ℕ → ℕ → Option (List Bytes)

pub record H265 : Type 0 where
  pub dll : Bool
  pub param : Bool
  pub enc : Bool
  pub pic : Bool
  pub width : ℕ
  pub height : ℕ
  pub init_done : Bool
  pub i420_buf : Bytes

unfoldable pub unloaded : H265
unloaded = record {
  dll = false;
  param = false;
  enc = false;
  pic = false;
  width = 0;
  height = 0;
  init_done = false;
  i420_buf = [];
}

unfoldable pub x265_encoder_init : Loader → Libx265 → ℕ → ℕ → H265 → H265 × Code
x265_encoder_init l lib w h s =
    if s.enc
    then (s, success)
    else let (loaded, code) = x265_load_dll l s.dll in
      let s' = record s { dll = loaded } in
      if not (is_success code)
      then (s', failure 1)
      else if not lib.has_param
      then (record s' { param = false }, failure 2)
      else if not lib.takes_preset
      then (record s' { param = false }, failure 3)
      else if not lib.opens
      then (record s' { param = false }, failure 4)
      else if not lib.has_picture
      then (record s' { pic = false; enc = false; param = false }, failure 5)
      else (record s' { param = true; enc = true; pic = true; width = w; height = h }, success)

unfoldable pub collected : Option (List Bytes) → ℕ → Written
collected none cap = refused 2
collected (some nals) cap = pack cap [] nals

unfoldable pub x265_encode_frame : Libx265 → Bytes → ℕ → ℕ → ℕ → H265 → Written
x265_encode_frame lib i420 w h cap s =
    if not s.enc
    then refused 1
    else if not s.pic
    then refused 1
    else collected (lib.encode i420 w h) cap

unfoldable pub x265_encoder_close : H265 → H265
x265_encoder_close s = record s { enc = false; pic = false; param = false }

-- h265Available
unfoldable pub h265_available : Loader → H265 → H265 × Bool
h265_available l s =
    let (loaded, code) = x265_load_dll l s.dll in (record s { dll = loaded }, is_success code)

-- h265EncoderInit
unfoldable pub h265_encoder_init : Loader → Libx265 → ℕ → ℕ → H265 → H265 × Code
h265_encoder_init l lib w h s =
    let (s', code) = x265_encoder_init l lib w h s in
    if is_success code
    then (record s' { init_done = true; i420_buf = zeroed (i420_size w h) }, success)
    else (s', code)

-- `&h265I420Buf[0]` panics on an empty buffer.
unfoldable pub on_planes : Option Bytes → Libx265 → ℕ → ℕ → H265 → H265 × Encoded
on_planes none lib w h s = (s, panicked)
on_planes (some i420) lib w h s = (
  record s { i420_buf = i420 },
  (if is_empty i420 then panicked else wrap (x265_encode_frame lib i420 w h max_buf s)),
)

-- h265EncodeFrame
unfoldable pub h265_encode_frame : Libx265 → Bytes → ℕ → ℕ → H265 → H265 × Encoded
h265_encode_frame lib bgra w h s =
    if not s.init_done
    then (s, not_initialised)
    else on_planes (planes bgra w h s.i420_buf) lib w h s

-- h265EncoderClose
unfoldable pub h265_encoder_close : H265 → H265
h265_encoder_close s =
    if s.init_done then record (x265_encoder_close s) { init_done = false } else s
