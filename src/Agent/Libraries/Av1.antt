-- ===== src/Agent/Libraries/Av1.antt =====
-- The AV1 encoder: agent/encode_av1_windows.go.
use oblireach.Base.{
  ℕ, ◌+◌, ◌%◌, ◌^◌, length, leb, is_empty, Bool, true, false, ◌&&◌, not, Option, none, some, [],
  Bytes, take, if◌then◌else◌,
}
use oblireach.Agent.Pixels.{planes}
use oblireach.Agent.Libraries.{
  Loader, Code, success, failure, is_success, i420_size, max_buf, Encoded, not_initialised,
  panicked, Written, wrote, refused, past_end, wrap, zeroed,
}
use oblireach.Agent.Libraries.Loading.{av1_load_dll}

-- What SVT-AV1 answers: whether making the handle returns no error, whether g_av1_enc is set behind
-- it, whether the handle takes the parameters and starts, whether a frame
-- at a time stamp is taken, and the packet that is ready, empty for none.
pub record Libsvtav1 : Type 0 where
  pub has_handle : Bool
  pub hands_handle : Bool
  pub takes_params : Bool
  pub starts : Bool
  pub takes_frame : Bytes → ℕ → Bool
  pub ready : Bytes → ℕ → Bytes

pub record Av1 : Type 0 where
  pub dll : Bool
  pub enc : Bool
  pub init : Bool
  pub width : ℕ
  pub height : ℕ
  pub pts : ℕ
  pub init_done : Bool
  pub i420_buf : Bytes

unfoldable pub unloaded : Av1
unloaded = record {
  dll = false;
  enc = false;
  init = false;
  width = 0;
  height = 0;
  pts = 0;
  init_done = false;
  i420_buf = [];
}

unfoldable pub av1_init : Loader → Libsvtav1 → ℕ → ℕ → Av1 → Av1 × Code
av1_init l lib w h s =
    if s.init
    then (s, success)
    else let (loaded, code) = av1_load_dll l s.dll in
      let s' = record s { dll = loaded } in
      if not (is_success code)
      then (s', failure 1)
      else if not lib.has_handle
      then (record s' { enc = lib.hands_handle }, failure 2)
      else if not lib.takes_params
      then (record s' { enc = false }, failure 3)
      else if not lib.starts
      then (record s' { enc = false }, failure 4)
      else (
        record s' { enc = lib.hands_handle; width = w; height = h; pts = 0; init = true },
        success,
      )

-- `int sz = (int)n; if (sz > out_cap) sz = out_cap; memcpy(...)`: a negative sz runs past the end.
unfoldable pub copied : ℕ → Bytes → Written
copied cap packet =
    let size = length packet % 2 ^ 32 in
    if leb (2 ^ 31) size then past_end else wrote (take cap (take size packet))

-- The time stamp goes up also for a frame that is not taken; a packet that is too large is cut.
unfoldable pub av1_encode : Libsvtav1 → Bytes → ℕ → Av1 → Av1 × Written
av1_encode lib i420 cap s =
    if not s.init then (s, refused 1) else if not s.enc then (s, refused 1) else (
      record s { pts = s.pts + 1 },
      (if lib.takes_frame i420 s.pts then copied cap (lib.ready i420 s.pts) else refused 2),
    )

unfoldable pub av1_close : Av1 → Av1
av1_close s = if s.init && s.enc then record s { enc = false; init = false } else s

-- av1Available
unfoldable pub av1_available : Loader → Av1 → Av1 × Bool
av1_available l s =
    let (loaded, code) = av1_load_dll l s.dll in (record s { dll = loaded }, is_success code)

-- av1EncoderInit
unfoldable pub av1_encoder_init : Loader → Libsvtav1 → ℕ → ℕ → Av1 → Av1 × Code
av1_encoder_init l lib w h s =
    let (s', code) = av1_init l lib w h s in
    if is_success code
    then (record s' { init_done = true; i420_buf = zeroed (i420_size w h) }, success)
    else (s', code)

-- `&av1I420Buf[0]` panics on an empty buffer.
unfoldable pub on_planes : Option Bytes → Libsvtav1 → ℕ → ℕ → Av1 → Av1 × Encoded
on_planes none lib w h s = (s, panicked)
on_planes (some i420) lib w h s =
    let t = record s { i420_buf = i420 } in
    let (s', out) = av1_encode lib i420 max_buf t in
    if is_empty i420 then (t, panicked) else (s', wrap out)

-- av1EncodeFrame
unfoldable pub av1_encode_frame : Libsvtav1 → Bytes → ℕ → ℕ → Av1 → Av1 × Encoded
av1_encode_frame lib bgra w h s =
    if not s.init_done
    then (s, not_initialised)
    else on_planes (planes bgra w h s.i420_buf) lib w h s

-- av1EncoderClose
unfoldable pub av1_encoder_close : Av1 → Av1
av1_encoder_close s = if s.init_done then record (av1_close s) { init_done = false } else s
