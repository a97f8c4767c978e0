-- ===== src/Agent/Pipe/RoundTrip.antt =====
-- Sending and receiving on the two pipes.
use oblireach.Base.{
  ap, ℕ, zero, suc, ◌+◌, ◌%◌, ◌^◌, ◌<◌, ◌≤◌, ◌≡◌, refl, List, [], ◌∷◌, ◌++◌, Bytes, length, All,
  get_or, ltb, ok, err, false, true, ◌∙◌, arith,
}
use oblireach.Agent.WebSocket.{eof, read_full}
use oblireach.Agent.WebSocket.Frames.{read_full-append}
use oblireach.Agent.Pipe.{
  max_message, short_read, oversized, put_uint32, get_uint32, pipe_send, chat_pipe_send, read,
  pipe_recv, chat_pipe_recv, send_all, recv_all,
}

read-append : (s t : Bytes) (n : ℕ) → length s ≡ n → read n (s ++ t) ≡ ok (s, t)
unfolding read
read-append s t n h = rw (read, read_full-append s t n h) refl

-- The header that is sent, read as one block of five bytes.
abbrev header : ℕ → ℕ → Bytes
header n msg_type = put_uint32 n ++ (msg_type ∷ [])

get_uint32-header : (n msg_type : ℕ) → get_uint32 (header n msg_type) ≡ n % 2 ^ 32
unfolding get_uint32 put_uint32
get_uint32-header n msg_type = omega arith

get_or-header : (n msg_type : ℕ) → get_or (header n msg_type) 4 0 ≡ msg_type
unfolding put_uint32
get_or-header n msg_type = refl

read-header :
    (n msg_type : ℕ) (t : Bytes)
    → read 5 (put_uint32 n ++ (msg_type ∷ t)) ≡ ok (header n msg_type, t)
unfolding put_uint32
read-header n msg_type t = read-append (header n msg_type) t 5 refl

size_kept : (n msg_type : ℕ) → n < 2 ^ 32 → get_uint32 (header n msg_type) ≡ n
size_kept n msg_type h = get_uint32-header n msg_type ∙ omega arith

-- A message within the cap is received as it was sent, and what follows it is left.
pub pipe_recv-pipe_send :
    (msg_type : ℕ) (payload t : Bytes)
    → length payload ≤ max_message
    → pipe_recv (pipe_send msg_type payload ++ t) ≡ ok (msg_type, payload, t)
unfolding pipe_recv pipe_send read put_uint32 get_uint32
pipe_recv-pipe_send msg_type payload t h =
    let n = length payload in
    let small : ltb max_message n ≡ false = ground arith in
    rw
      (
        read-header n msg_type (payload ++ t),
        size_kept n msg_type (omega arith),
        get_or-header n msg_type,
        small,
        read-append payload t n refl,
      )
      refl

-- A message above the cap that the header can express is refused, and names its size.
pub pipe_recv_oversized :
    (msg_type : ℕ) (payload t : Bytes)
    → max_message < length payload
    → length payload < 2 ^ 32
    → pipe_recv (pipe_send msg_type payload ++ t) ≡ err (oversized (length payload))
unfolding pipe_recv pipe_send read put_uint32 get_uint32
pipe_recv_oversized msg_type payload t h k =
    let n = length payload in
    let big : ltb max_message n ≡ true = ground arith in
    rw
      (read-header n msg_type (payload ++ t), size_kept n msg_type k, get_or-header n msg_type, big)
      refl

-- On the chat pipe every message below 4 GiB is received.
pub chat_pipe_recv-chat_pipe_send :
    (msg_type : ℕ) (payload t : Bytes)
    → length payload < 2 ^ 32
    → chat_pipe_recv (chat_pipe_send msg_type payload ++ t) ≡ ok (msg_type, payload, t)
unfolding chat_pipe_recv chat_pipe_send read put_uint32 get_uint32
chat_pipe_recv-chat_pipe_send msg_type payload t h =
    let n = length payload in
    rw
      (
        read-header n msg_type (payload ++ t),
        size_kept n msg_type h,
        get_or-header n msg_type,
        read-append payload t n refl,
      )
      refl

-- A read of fewer bytes than are asked for, in the header and in the payload.
read_few : (n : ℕ) (s : Bytes) → length s < n → read n s ≡ err (short_read eof)
unfolding read read_full
read_few n s h = ground arith

pub chat_pipe_recv_short : (s : Bytes) → length s < 5 → chat_pipe_recv s ≡ err (short_read eof)
unfolding chat_pipe_recv
chat_pipe_recv_short s h = rw (read_few 5 s h) refl

pub length-chat_pipe_send :
    (msg_type : ℕ) (payload : Bytes) → length (chat_pipe_send msg_type payload) ≡ length payload + 5
unfolding chat_pipe_send put_uint32
length-chat_pipe_send msg_type payload = omega arith

pub chat_pipe_recv_cut :
    (n msg_type : ℕ) (q : Bytes)
    → length q < n
    → n < 2 ^ 32
    → chat_pipe_recv (put_uint32 n ++ (msg_type ∷ q)) ≡ err (short_read eof)
unfolding chat_pipe_recv
chat_pipe_recv_cut n msg_type q h k =
    rw (read-header n msg_type q, size_kept n msg_type k, read_few n q h) refl

pub pipe_recv_short : (s : Bytes) → length s < 5 → pipe_recv s ≡ err (short_read eof)
unfolding pipe_recv
pipe_recv_short s h = rw (read_few 5 s h) refl

pub length-pipe_send :
    (msg_type : ℕ) (payload : Bytes) → length (pipe_send msg_type payload) ≡ length payload + 5
unfolding pipe_send put_uint32
length-pipe_send msg_type payload = omega arith

pub pipe_recv_cut :
    (n msg_type : ℕ) (q : Bytes)
    → length q < n
    → n ≤ max_message
    → pipe_recv (put_uint32 n ++ (msg_type ∷ q)) ≡ err (short_read eof)
unfolding pipe_recv
pipe_recv_cut n msg_type q h k =
    let small : ltb max_message n ≡ false = ground arith in
    rw (read-header n msg_type q, size_kept n msg_type (omega arith), small, read_few n q h) refl

pipe_recv-nil : pipe_recv [] ≡ err (short_read eof)
unfolding pipe_recv read read_full
pipe_recv-nil = refl

-- A run of messages within the cap is received as it was sent, in order.
pub recv_all-send_all :
    (ms : List (ℕ × Bytes)) (fuel : ℕ)
    → All (λ m. length m.1 ≤ max_message) ms
    → length ms < fuel
    → recv_all fuel (send_all ms) ≡ ms
unfolding recv_all send_all
recv_all-send_all [] zero h enough = elim enough [ ]
recv_all-send_all (m ∷ ms) zero h enough = elim enough [ ]
recv_all-send_all [] (suc fuel) h enough = rw (recv_all, pipe_recv-nil) refl
recv_all-send_all (m ∷ ms) (suc fuel) h enough =
    rw
      (
        recv_all,
        pipe_recv-pipe_send m.0 m.1 (send_all ms) h.0,
        recv_all-send_all ms fuel h.1 (omega arith),
      )
      refl

-- A payload of a given length.
pub zeros : ℕ → Bytes
zeros zero = []
zeros (suc n) = 0 ∷ zeros n

pub length-zeros : (n : ℕ) → length (zeros n) ≡ n
unfolding zeros
length-zeros zero = refl
length-zeros (suc n) = ap suc (length-zeros n)
