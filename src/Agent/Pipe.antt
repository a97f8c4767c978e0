-- ===== src/Agent/Pipe.antt =====
-- The framing of the two pipes to a helper process: pipeSend and pipeRecv of
-- agent/remote_session_windows.go, chatPipeSend and chatPipeRecv of agent/chat.go. A message is a
-- 4-byte little-endian length, a type byte and the payload.
use oblireach.Base.{
  ℕ, zero, suc, ◌+◌, ◌*◌, ◌/◌, ◌%◌, ◌^◌, List, [], ◌∷◌, ◌++◌, Bytes, length, get_or, take, leb, ltb,
  if◌then◌else◌, Result, ok, err, ◌>>=◌,
}
use oblireach.Agent.WebSocket.{ReadError, read_full}
mod Examples
pub mod RoundTrip

abbrev pub max_message : ℕ
max_message = 8 * 1024 * 1024

pub data PipeError : Type 0 where
  short_read : ReadError → PipeError
  oversized : ℕ → PipeError

-- binary.LittleEndian.PutUint32(hdr[:4], uint32(n))
pub put_uint32 : ℕ → Bytes
put_uint32 n =
    let m = n % 2 ^ 32 in m % 256 ∷ m / 256 % 256 ∷ m / 256 ^ 2 % 256 ∷ m / 256 ^ 3 % 256 ∷ []

-- binary.LittleEndian.Uint32(hdr[:4])
pub get_uint32 : Bytes → ℕ
get_uint32 hdr =
    get_or hdr 0 0 + (256 * get_or hdr 1 0 + (256 ^ 2 * get_or hdr 2 0 + 256 ^ 3 * get_or hdr 3 0))

pub pipe_send : ℕ → Bytes → Bytes
pipe_send msg_type payload = put_uint32 (length payload) ++ (msg_type ∷ payload)

pub chat_pipe_send : ℕ → Bytes → Bytes
chat_pipe_send msg_type payload = put_uint32 (length payload) ++ (msg_type ∷ payload)

read : ℕ → Bytes → Result PipeError (Bytes × Bytes)
read n s = elim (read_full n s) [ ok r ↦ ok r | err e ↦ err (short_read e) ]

-- The type, the payload, and what is left in the connection.
pub pipe_recv : Bytes → Result PipeError (ℕ × Bytes × Bytes)
pipe_recv s = do
  (hdr, after_header) ← read 5 s
  let n = get_uint32 hdr
  (payload, rest) ← (if ltb max_message n then err (oversized n) else read n after_header)
  ok (get_or hdr 4 0, payload, rest)

pub chat_pipe_recv : Bytes → Result PipeError (ℕ × Bytes × Bytes)
chat_pipe_recv s = do
  (hdr, after_header) ← read 5 s
  (payload, rest) ← read (get_uint32 hdr) after_header
  ok (get_or hdr 4 0, payload, rest)

-- A connection that delivers a list of messages, one behind the other.
unfoldable pub send_all : List (ℕ × Bytes) → Bytes
send_all [] = []
send_all (m ∷ ms) = pipe_send m.0 m.1 ++ send_all ms

-- The receiver's loop, on fuel: the messages up to the first error.
pub recv_all : ℕ → Bytes → List (ℕ × Bytes)
recv_all zero s = []
recv_all (suc fuel) s = elim (pipe_recv s) [
  | ok r ↦ let rest = recv_all fuel r.2 in (r.0, r.1) ∷ rest
  | err e ↦ []
]
