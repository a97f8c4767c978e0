-- ===== src/Agent/Chats/Deadline.antt =====
-- The read deadline of relayFromHelper (agent/chat.go): three seconds for a message, and on a timeout
-- the loop goes on. A window is what arrives until a read times out; io.ReadFull has then taken all
-- of it.
use oblireach.Base.{
  ℕ, zero, suc, ◌^◌, ◌<◌, ◌≡◌, ◌⊎◌, inl, inr, refl, ap, List, [], ◌∷◌, ◌++◌, Bytes, All, length,
  length-append, ok, err, arith,
}
use mathlib.Core.List.{append_assoc}
use oblireach.Agent.WebSocket.{eof}
use oblireach.Agent.Pipe.{short_read, put_uint32, chat_pipe_send, chat_pipe_recv}
use oblireach.Agent.Pipe.RoundTrip.{
  chat_pipe_recv-chat_pipe_send, chat_pipe_recv_short, chat_pipe_recv_cut, length-chat_pipe_send,
}

-- The messages that are received in one window, until a read times out.
unfoldable pub relay_window : ℕ → Bytes → List (ℕ × Bytes)
relay_window zero bytes = []
relay_window (suc fuel) bytes = elim (chat_pipe_recv bytes) [
  | ok r ↦ let rest = relay_window fuel r.2 in (r.0, r.1) ∷ rest
  | err e ↦ []
]

-- A message takes five bytes at least, so the length is fuel enough.
unfoldable pub relay_windows : List Bytes → List (ℕ × Bytes)
relay_windows [] = []
relay_windows (w ∷ ws) = relay_window (suc (length w)) w ++ relay_windows ws

unfoldable pub chat_send_all : List (ℕ × Bytes) → Bytes
chat_send_all [] = []
chat_send_all (m ∷ ms) = chat_pipe_send m.0 m.1 ++ chat_send_all ms

-- The beginning of a message: less than the header, or the header and less than the payload.
abbrev pub IsCut : Bytes → Type 0
IsCut cut =
    (length cut < 5)
    ⊎ (n : ℕ) × (t : ℕ) × (q : Bytes) × (cut ≡ put_uint32 n ++ (t ∷ q))
      × (length q < n)
      × (n < 2 ^ 32)

cut_short : (cut : Bytes) → IsCut cut → chat_pipe_recv cut ≡ err (short_read eof)
cut_short cut (inl h) = chat_pipe_recv_short cut h
cut_short cut (inr (n, t, q, e, h, k)) = rw e (chat_pipe_recv_cut n t q h k)

relay_window_lem :
    (ms : List (ℕ × Bytes)) (cut : Bytes) (fuel : ℕ)
    → All (λ m. length m.1 < 2 ^ 32) ms
    → IsCut cut
    → length (chat_send_all ms ++ cut) < fuel
    → relay_window fuel (chat_send_all ms ++ cut) ≡ ms
unfolding relay_window chat_send_all
relay_window_lem ms cut zero small short h = absurd (omega arith)
relay_window_lem [] cut (suc fuel) small short h = rw (relay_window, cut_short cut short) refl
relay_window_lem (m ∷ ms) cut (suc fuel) small short h =
    let rest = chat_send_all ms ++ cut in
    let all = append_assoc (chat_pipe_send m.0 m.1) (chat_send_all ms) cut in
    let enough : length rest < fuel = omega (
      arith,
      ap length all,
      length-append (chat_pipe_send m.0 m.1) rest,
      length-chat_pipe_send m.0 m.1,
    ) in
    rw
      (
        all,
        relay_window,
        chat_pipe_recv-chat_pipe_send m.0 m.1 rest small.0,
        relay_window_lem ms cut fuel small.1 short enough,
      )
      refl

-- Messages that arrive whole are received as they were sent. A message of which only a beginning has
-- arrived when the deadline passes is lost: what was read of it is thrown away, and the bytes that
-- come later are read as if a message began there.
pub relay_windows_cut :
    (ms : List (ℕ × Bytes)) (cut : Bytes) (ws : List Bytes)
    → All (λ m. length m.1 < 2 ^ 32) ms
    → IsCut cut
    → relay_windows ((chat_send_all ms ++ cut) ∷ ws) ≡ ms ++ relay_windows ws
unfolding relay_windows
relay_windows_cut ms cut ws small short =
    rw (relay_window_lem ms cut (suc (length (chat_send_all ms ++ cut))) small short (omega arith))
      refl
