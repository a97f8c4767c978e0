-- ===== src/Agent/CrossSession/Reading.antt =====
-- The reads of the loop in runCrossSession (agent/remote_session_windows.go): three seconds for a
-- message, and on a timeout the loop goes on. A window is what arrives until a read times out;
-- io.ReadFull has then taken all of it.
use oblireach.Base.{
  ℕ, zero, suc, ◌<◌, ◌≤◌, ◌≡◌, ◌⊎◌, inl, inr, refl, ap, sym, ◌∙◌, true, Option, none, some, List,
  [], ◌∷◌, ◌++◌, Bytes, All, length, length-append, ok, err, arith,
}
use mathlib.Core.List.{append_assoc}
use oblireach.Agent.WebSocket.{eof}
use oblireach.Agent.Pipe.{
  PipeError, short_read, oversized, max_message, put_uint32, pipe_send, pipe_recv, send_all,
}
use oblireach.Agent.Pipe.RoundTrip.{
  pipe_recv-pipe_send, pipe_recv_short, pipe_recv_cut, length-pipe_send,
}
use oblireach.Agent.CrossSession.{CrossSession, Turn, received, timed_out, helper_lost, relay_all}
use oblireach.Agent.CrossSession.Relaying.{
  Output, message_of, expected, binaries, turns, expected_all, relay_all_carries,
}

-- A read that returns no message: the deadline passes in it, or the length is above the cap.
unfoldable pub read_failed : PipeError → Turn
read_failed (short_read e) = timed_out
read_failed (oversized n) = helper_lost

module _ (write : ℕ → Bytes → Option ℕ) where
  -- The turns of one window; `write` tells how the write of a message goes.
  unfoldable pub window_turns : ℕ → Bytes → List Turn
  window_turns zero bytes = []
  window_turns (suc fuel) bytes = elim (pipe_recv bytes) [
    | ok r ↦ let rest = window_turns fuel r.2 in received r.0 r.1 (write r.0 r.1) ∷ rest
    | err e ↦ read_failed e ∷ []
  ]

  -- A message takes five bytes at least, so the length is fuel enough.
  unfoldable pub windows_turns : List Bytes → List Turn
  windows_turns [] = []
  windows_turns (w ∷ ws) = window_turns (suc (length w)) w ++ windows_turns ws

-- What the helper's writes put into a window: whole messages, and the beginning of one that is not
-- there when the deadline passes.
pub record Window : Type 0 where
  pub whole : List Output
  pub cut : Bytes

abbrev pub messages : List Output → List (ℕ × Bytes)
messages [] = []
messages (o ∷ os) = message_of o ∷ messages os

abbrev pub bytes_of : Window → Bytes
bytes_of w = send_all (messages w.whole) ++ w.cut

abbrev pub all_bytes : List Window → List Bytes
all_bytes [] = []
all_bytes (w ∷ ws) = bytes_of w ∷ all_bytes ws

-- Less than a header, or a header and less than its payload.
abbrev pub IsCut : Bytes → Type 0
IsCut cut =
    (length cut < 5)
    ⊎ (n : ℕ) × (t : ℕ) × (q : Bytes) × (cut ≡ put_uint32 n ++ (t ∷ q))
      × (length q < n)
      × (n ≤ max_message)

abbrev pub IsWindow : Window → Type 0
IsWindow w = All (λ o. length (message_of o).1 ≤ max_message) w.whole × IsCut w.cut

-- The binary frames for the messages that are whole in their window.
abbrev pub expected_outputs : List Output → List Bytes
expected_outputs [] = []
expected_outputs (o ∷ os) = expected o ++ expected_outputs os

abbrev pub expected_windows : List Window → List Bytes
expected_windows [] = []
expected_windows (w ∷ ws) = expected_outputs w.whole ++ expected_windows ws

cut_short : (cut : Bytes) → IsCut cut → pipe_recv cut ≡ err (short_read eof)
cut_short cut (inl h) = pipe_recv_short cut h
cut_short cut (inr (n, t, q, e, h, k)) = rw e (pipe_recv_cut n t q h k)

module _ (write_time : ℕ → Bytes → ℕ) where
  entries : List Output → List (Option (Output × ℕ))
  entries [] = none ∷ []
  entries (o ∷ os) = some (o, write_time (message_of o).0 (message_of o).1) ∷ entries os

  all_entries : List Window → List (Option (Output × ℕ))
  all_entries [] = []
  all_entries (w ∷ ws) = entries w.whole ++ all_entries ws

  turns-append : (xs ys : List (Option (Output × ℕ))) → turns (xs ++ ys) ≡ turns xs ++ turns ys
  turns-append [] ys = refl
  turns-append (none ∷ xs) ys = ap (λ l. timed_out ∷ l) (turns-append xs ys)
  turns-append (some (o, d) ∷ xs) ys =
      ap (λ l. received (message_of o).0 (message_of o).1 (some d) ∷ l) (turns-append xs ys)

  window_turns_lem :
      (os : List Output) (cut : Bytes) (fuel : ℕ)
      → All (λ o. length (message_of o).1 ≤ max_message) os
      → IsCut cut
      → length (send_all (messages os) ++ cut) < fuel
      → window_turns (λ t p. some (write_time t p)) fuel (send_all (messages os) ++ cut)
        ≡ turns (entries os)
  unfolding window_turns send_all entries read_failed
  window_turns_lem os cut zero small short h = absurd (omega arith)
  window_turns_lem [] cut (suc fuel) small short h = rw (window_turns, cut_short cut short) refl
  window_turns_lem (o ∷ os) cut (suc fuel) small short h =
      let m = message_of o in
      let rest = send_all (messages os) ++ cut in
      let all = append_assoc (pipe_send m.0 m.1) (send_all (messages os)) cut in
      let enough : length rest < fuel =
        omega (
          arith,
          ap length all,
          length-append (pipe_send m.0 m.1) rest,
          length-pipe_send m.0 m.1,
        ) in
      rw
        (
          all,
          window_turns,
          pipe_recv-pipe_send m.0 m.1 rest small.0,
          window_turns_lem os cut fuel small.1 short enough,
        )
        refl

  windows_turns_lem :
      (ws : List Window)
      → All IsWindow ws
      → windows_turns (λ t p. some (write_time t p)) (all_bytes ws) ≡ turns (all_entries ws)
  unfolding windows_turns all_entries
  windows_turns_lem [] good = refl
  windows_turns_lem (w ∷ ws) good =
      rw
        (
          window_turns_lem w.whole w.cut (suc (length (bytes_of w))) good.0.0 good.0.1
              (omega arith),
          windows_turns_lem ws good.1,
          turns-append (entries w.whole) (all_entries ws),
        )
        refl

  expected_entries :
      (os : List Output) (ys : List (Option (Output × ℕ)))
      → expected_all (entries os ++ ys) ≡ expected_outputs os ++ expected_all ys
  unfolding entries
  expected_entries [] ys = refl
  expected_entries (o ∷ os) ys =
      ap (λ l. expected o ++ l) (expected_entries os ys)
      ∙ sym (append_assoc (expected o) (expected_outputs os) (expected_all ys))

  expected_all_entries : (ws : List Window) → expected_all (all_entries ws) ≡ expected_windows ws
  unfolding all_entries
  expected_all_entries [] = refl
  expected_all_entries (w ∷ ws) =
      expected_entries w.whole (all_entries ws)
      ∙ ap (λ l. expected_outputs w.whole ++ l) (expected_all_entries ws)

  -- While nobody stops the stream and the writes to the browser succeed, the binary frames that it
  -- gets of what the helper sends are just these, in order: of the messages that are whole when the
  -- read deadline passes, the frames of each encoder with the tag that they have on a stream without
  -- a helper, and the audio with its tag. The beginning of a message that has arrived by then is
  -- thrown away, and what comes later is read as if a message began there.
  pub relay_windows_carry :
      (set_bitrate_json bitrate_json : ℕ → Bytes) (ws : List Window) (s : CrossSession)
      → All IsWindow ws
      → s.running ≡ true
      → let ts = windows_turns (λ t p. some (write_time t p)) (all_bytes ws) in
        binaries (relay_all set_bitrate_json bitrate_json ts s).to_browser
        ≡ binaries s.to_browser ++ expected_windows ws
  relay_windows_carry set_bitrate_json bitrate_json ws s good on =
      rw (windows_turns_lem ws good, ← (expected_all_entries ws))
        (relay_all_carries set_bitrate_json bitrate_json (all_entries ws) s on)
