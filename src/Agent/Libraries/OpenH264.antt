-- ===== src/Agent/Libraries/OpenH264.antt =====
-- The OpenH264 encoder: agent/encode_openh264_windows.go.
use oblireach.Base.{
  ℕ, ◌+◌, Bool, true, false, ◌&&◌, not, Option, none, some, List, [], ◌∷◌, ◌++◌, Bytes, length, leb,
  is_empty, ◌^◌, if◌then◌else◌,
}
use oblireach.Agent.Pixels.{planes}
use oblireach.Agent.Libraries.{
  Loader, Code, success, failure, is_success, i420_size, max_buf, Encoded, not_initialised,
  panicked, Written, wrote, refused, past_end, wrap, zeroed,
}
use oblireach.Agent.Libraries.Loading.{oh_load_dll}

-- What the library answers: whether the creation returns 0, whether g_oh_encoder is set behind it,
-- whether the encoder takes the parameters, and the layers of NAL units for a frame of a size at a
-- time; no layers are a skipped frame.
pub record Libopenh264 : Type 0 where
  pub creates : Bool
  pub hands_encoder : Bool
  pub initialises : Bool
  pub encode : Bytes → ℕ → ℕ → ℕ → Option (List (List Bytes))

pub record OpenH264 : Type 0 where
  pub dll : Bool
  pub encoder : Bool
  pub width : ℕ
  pub height : ℕ
  -- The target bitrates that the encoder was given.
  pub bitrates : List ℕ
  pub init_done : Bool
  pub i420_buf : Bytes

unfoldable pub unloaded : OpenH264
unloaded = record {
  dll = false;
  encoder = false;
  width = 0;
  height = 0;
  bitrates = [];
  init_done = false;
  i420_buf = [];
}

unfoldable pub oh_encoder_init : Loader → Libopenh264 → ℕ → ℕ → ℕ → OpenH264 → OpenH264 × Code
oh_encoder_init l lib w h bitrate s =
    let (loaded, code) = oh_load_dll l s.dll in
    let s' = record s { dll = loaded } in
    if not (is_success code)
    then (s', failure 1)
    else if s.encoder
    then (s', success)
    else if not (lib.creates && lib.hands_encoder)
    then (record s' { encoder = lib.hands_encoder }, failure 2)
    else if not lib.initialises
    then (record s' { encoder = false }, failure 3)
    else (record s' { encoder = true; width = w; height = h; bitrates = bitrate ∷ [] }, success)

-- The units of a layer, up to the first that does not fit. A sum from 2 ^ 31 on is negative, which the
-- test takes for one that fits.
unfoldable pub pack_layer : ℕ → Bytes → List Bytes → Written
pack_layer cap out [] = wrote out
pack_layer cap out (nal ∷ nals) =
    let rest = pack_layer cap (out ++ nal) nals in
    if leb (2 ^ 31) (length out + length nal)
    then past_end
    else if leb (length out + length nal) cap
    then rest
    else wrote out

unfoldable pub pack_layers : ℕ → Bytes → List (List Bytes) → Written
pack_layers cap out [] = wrote out
pack_layers cap out (layer ∷ layers) = elim (pack_layer cap out layer) [
  | wrote out' ↦ pack_layers cap out' layers
  | refused n ↦ refused n
  | past_end ↦ past_end
]

unfoldable pub collected : Option (List (List Bytes)) → ℕ → Written
collected none cap = refused 2
collected (some layers) cap = pack_layers cap [] layers

unfoldable pub oh_encode_frame : Libopenh264 → Bytes → ℕ → ℕ → ℕ → ℕ → OpenH264 → Written
oh_encode_frame lib i420 w h timestamp cap s =
    if not s.encoder then refused 1 else collected (lib.encode i420 w h timestamp) cap

unfoldable pub oh_encoder_close : OpenH264 → OpenH264
oh_encoder_close s = if s.encoder then record s { encoder = false } else s

unfoldable pub oh_set_bitrate : ℕ → OpenH264 → OpenH264
oh_set_bitrate bitrate s =
    if not s.encoder then s else record s { bitrates = s.bitrates ++ (bitrate ∷ []) }

-- openH264Available
unfoldable pub openh264_available : Loader → OpenH264 → OpenH264 × Bool
openh264_available l s =
    let (loaded, code) = oh_load_dll l s.dll in (record s { dll = loaded }, is_success code)

-- openH264Init
unfoldable pub openh264_init : Loader → Libopenh264 → ℕ → ℕ → ℕ → OpenH264 → OpenH264 × Code
openh264_init l lib w h bitrate s =
    let (s', code) = oh_encoder_init l lib w h bitrate s in
    if is_success code
    then (record s' { init_done = true; i420_buf = zeroed (i420_size w h) }, success)
    else (s', code)

-- `&ohI420Buf[0]` panics on an empty buffer.
unfoldable pub on_planes : Option Bytes → Libopenh264 → ℕ → ℕ → ℕ → OpenH264 → OpenH264 × Encoded
on_planes none lib w h timestamp s = (s, panicked)
on_planes (some i420) lib w h timestamp s = (
  record s { i420_buf = i420 },
  (if is_empty i420 then panicked else wrap (oh_encode_frame lib i420 w h timestamp max_buf s)),
)

-- openH264EncodeFrame
unfoldable pub openh264_encode_frame :
    Libopenh264 → Bytes → ℕ → ℕ → ℕ → OpenH264 → OpenH264 × Encoded
openh264_encode_frame lib bgra w h timestamp s =
    if not s.init_done
    then (s, not_initialised)
    else on_planes (planes bgra w h s.i420_buf) lib w h timestamp s

-- openH264SetBitrate
unfoldable pub openh264_set_bitrate : ℕ → OpenH264 → OpenH264
openh264_set_bitrate bitrate s = if s.init_done then oh_set_bitrate bitrate s else s

-- openH264Close
unfoldable pub openh264_close : OpenH264 → OpenH264
openh264_close s = if s.init_done then record (oh_encoder_close s) { init_done = false } else s
