-- ===== src/Agent/WebSocket.antt =====
-- agent/websocket.go: the address of a WebSocket, and its frames. A read consumes the bytes that the
-- connection delivers before it ends; the four mask bytes of a write are random and so an argument.
pub mod Frames
pub mod Address
mod Examples
use oblireach.Base.{
  ℕ, zero, suc, ◌+◌, ◌*◌, ◌/◌, ◌%◌, ◌^◌, bit_and, bit_or, bit_xor, Bool, true, false, not, Option,
  none, some, List, [], ◌∷◌, ◌++◌, Bytes, codes, length, take, drop, get_or, strip_prefix, has_byte,
  leb, ◌==◌, if◌then◌else◌, Result, ok, err, ◌>>=◌,
}

pub data ReadError : Type 0 where
  eof : ReadError
  -- make([]byte, n) panics: the length is out of range.
  makeslice_panic : ReadError

-- io.ReadFull
unfoldable pub read_full : ℕ → Bytes → Result ReadError (Bytes × Bytes)
read_full n s = if leb n (length s) then ok (take n s, drop n s) else err eof

-- binary.BigEndian, and the bytes `byte(n >> (8 * (k - 1)))`, ..., `byte(n)`.
pub be_value : ℕ → Bytes → ℕ
be_value acc [] = acc
be_value acc (b ∷ bs) = be_value (acc * 256 + b) bs

pub be_bytes : ℕ → ℕ → Bytes
be_bytes zero n = []
be_bytes (suc k) n = n / 256 ^ k % 256 ∷ be_bytes k n

-- `payload[i] ^= maskKey[i%4]`, from the position i on.
pub mask_from : ℕ → Bytes → Bytes → Bytes
mask_from i key [] = []
mask_from i key (b ∷ bs) = bit_xor b (get_or key (i % 4) 0) ∷ mask_from (i + 1) key bs

-- The largest allocation of the Go runtime on a 64-bit machine.
abbrev pub max_alloc : ℕ
max_alloc = 2 ^ 48

read_length : ℕ → Bytes → Result ReadError (ℕ × Bytes)
read_length len7 s =
    if len7 == 126
    then (do (field, rest) ← read_full 2 s; ok (be_value 0 field, rest))
    else if len7 == 127
    then (do (field, rest) ← read_full 8 s; ok (be_value 0 field, rest))
    else ok (len7, s)

read_key : Bool → Bytes → Result ReadError (Bytes × Bytes)
read_key masked s = if masked then read_full 4 s else ok (0 ∷ 0 ∷ 0 ∷ 0 ∷ [], s)

read_payload : Bool → Bytes → ℕ → Bytes → Result ReadError (Bytes × Bytes)
read_payload masked key zero s = ok ([], s)
read_payload masked key (suc n) s =
    if leb (suc n) max_alloc
    then (do
      (payload, rest) ← read_full (suc n) s
      ok ((if masked then mask_from 0 key payload else payload), rest))
    else err makeslice_panic

-- The opcode, the payload, and what the connection delivers behind the frame.
pub read_frame : Bytes → Result ReadError (ℕ × Bytes × Bytes)
read_frame [] = err eof
read_frame (h0 ∷ []) = err eof
read_frame (h0 ∷ h1 ∷ s) = do
  let masked = not (bit_and h1 0x80 == 0)
  (len, after_length) ← read_length (bit_and h1 0x7f) s
  (key, after_key) ← read_key masked after_length
  (payload, rest) ← read_payload masked key len after_key
  ok (bit_and h0 0x0f, payload, rest)

-- `byte(payLen)` and the extended forms of the length, with the mask bit.
pub length_header : ℕ → Bytes
length_header n =
    if leb n 125
    then bit_or 0x80 (n % 256) ∷ []
    else if leb n 65535
    then bit_or 0x80 126 ∷ be_bytes 2 n
    else bit_or 0x80 127 ∷ be_bytes 8 n

pub write_frame : ℕ → Bytes → Bytes → Bytes
write_frame opcode mask_key payload =
    bit_or 0x80 opcode
    ∷ (length_header (length payload) ++ (mask_key ++ mask_from 0 mask_key payload))

pub data Scheme : Type 0 where
  wss ws : Scheme

pub record WsUrl : Type 0 where
  pub scheme : Scheme
  pub host : Bytes
  pub path : Bytes

-- strings.Index(rawURL, "/") and the two slices there.
cut_slash : Bytes → Bytes × Option Bytes
cut_slash [] = ([], none)
cut_slash (c ∷ s) =
    let rest = cut_slash s in if c == b'/' then ([], some (c ∷ s)) else (c ∷ rest.0, rest.1)

default_port : Scheme → Bytes
default_port wss = codes ":443"
default_port ws = codes ":80"

with_port : Scheme → Bytes → Bytes
unfolding default_port
with_port scheme host = if has_byte b':' host then host else host ++ default_port scheme

split_url : Scheme → Bytes → WsUrl
unfolding cut_slash with_port
split_url scheme raw =
    let cut = cut_slash raw in
    record {
      scheme = scheme;
      host = with_port scheme cut.0;
      path = elim cut.1 [ none ↦ codes "/" | some path ↦ path ];
    }

-- `none` is the error "unsupported scheme".
pub parse_ws_url : Bytes → Option WsUrl
unfolding split_url
parse_ws_url raw = elim (strip_prefix (codes "wss://") raw) [
  | some rest ↦ some (split_url wss rest)
  | none ↦ elim (strip_prefix (codes "ws://") raw) [
    | some rest ↦ some (split_url ws rest)
    | none ↦ elim (strip_prefix (codes "https://") raw) [
      | some rest ↦ some (split_url wss rest)
      | none ↦ elim (strip_prefix (codes "http://") raw) [
        | some rest ↦ some (split_url ws rest)
        | none ↦ none
      ]
    ]
  ]
]
