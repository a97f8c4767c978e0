-- ===== src/Agent/Reconnect/Answers.antt =====
-- What a command session answers, and when it ends.
use oblireach.Base.{
  ◌||◌, ℕ, ◌≡◌, refl, ap, ◌∙◌, sym, List, [], ◌∷◌, ◌++◌, Bytes, ◌==◌, if◌then◌else◌, arith, Option,
  none, some, Bool-cases, inl, inr, Option-cases, Bool, true, false,
}
use mathlib.Core.List.{append_assoc, append-nil}
use oblireach.Agent.Reconnect.{
  Ending, clean_close, Arrival, tick, frame, read_error, Action, heartbeat, pong, execute,
  malformed, Session, handle_text, handle_frame, receive, serve,
}

module _ {Command : Type 0} where
  -- The pongs among some actions, in order.
  abbrev pub pongs : List (Action Command) → List Bytes
  pongs [] = []
  pongs (pong p ∷ l) = p ∷ pongs l
  pongs (heartbeat ∷ l) = pongs l
  pongs (execute c ∷ l) = pongs l
  pongs (malformed ∷ l) = pongs l

  -- The commands that were executed, in order.
  abbrev pub executed : List (Action Command) → List Command
  executed [] = []
  executed (pong p ∷ l) = executed l
  executed (heartbeat ∷ l) = executed l
  executed (execute c ∷ l) = c ∷ executed l
  executed (malformed ∷ l) = executed l

  pongs-append : (a b : List (Action Command)) → pongs (a ++ b) ≡ pongs a ++ pongs b
  pongs-append [] b = refl
  pongs-append (pong p ∷ l) b = ap (◌∷◌ p) (pongs-append l b)
  pongs-append (heartbeat ∷ l) b = pongs-append l b
  pongs-append (execute c ∷ l) b = pongs-append l b
  pongs-append (malformed ∷ l) b = pongs-append l b

  executed-append : (a b : List (Action Command)) → executed (a ++ b) ≡ executed a ++ executed b
  executed-append [] b = refl
  executed-append (pong p ∷ l) b = executed-append l b
  executed-append (heartbeat ∷ l) b = executed-append l b
  executed-append (execute c ∷ l) b = ap (◌∷◌ c) (executed-append l b)
  executed-append (malformed ∷ l) b = executed-append l b

-- The payload of an arrival that is a ping, and the command of one that is a text frame.
abbrev pub ping_of : Arrival → List Bytes
ping_of (tick m) = []
ping_of (read_error m) = []
ping_of (frame opcode p) = if opcode == 0x9 then p ∷ [] else []

abbrev pub command_of : {Command : Type 0} → (Bytes → Option Command) → Arrival → List Command
command_of decode (tick m) = []
command_of decode (read_error m) = []
command_of decode (frame opcode p) =
    if opcode == 0x1 then elim (decode p) [ none ↦ [] | some c ↦ c ∷ [] ] else []

abbrev pub pings : List (ℕ × Arrival) → List Bytes
pings [] = []
pings (a ∷ l) = ping_of a.1 ++ pings l

abbrev pub commands :
    {Command : Type 0} → (Bytes → Option Command) → List (ℕ × Arrival) → List Command
commands decode [] = []
commands decode (a ∷ l) = command_of decode a.1 ++ commands decode l

abbrev pub is_close : Arrival → Bool
is_close (tick m) = false
is_close (read_error m) = false
is_close (frame opcode p) = opcode == 0x8

abbrev pub has_close : List (ℕ × Arrival) → Bool
has_close [] = false
has_close (a ∷ l) = is_close a.1 || has_close l

module _ {Command : Type 0} (decode : Bytes → Option Command) where
  answers_nil :
      (s : Session Command)
      → (pongs (serve decode [] s).actions ≡ pongs s.actions ++ [])
        × (executed (serve decode [] s).actions ≡ executed s.actions ++ [])
  unfolding serve
  answers_nil s = (sym (append-nil _), sym (append-nil _))

  ended_stays :
      (l : List (ℕ × Arrival)) (s : Session Command) (e : Ending)
      → s.ending ≡ some e
      → serve decode l s ≡ s
  unfolding serve
  ended_stays [] s e h = refl
  ended_stays (a ∷ l) s e h = rw h refl

  serve_open :
      (a : ℕ × Arrival) (l : List (ℕ × Arrival)) (s : Session Command)
      → s.ending ≡ none
      → serve decode (a ∷ l) s ≡ serve decode l (receive decode a.0 a.1 s)
  unfolding serve
  serve_open a l s h = rw h refl

  answers-handle_frame :
      (opcode : ℕ) (p : Bytes)
      → (pongs (handle_frame decode opcode p).0 ≡ ping_of (frame opcode p))
        × (executed (handle_frame decode opcode p).0 ≡ command_of decode (frame opcode p))
  unfolding handle_frame handle_text
  answers-handle_frame opcode p = elim (Option-cases (decode p)) [
    | inl bad ↦ rw bad (ground arith)
    | inr (c, good) ↦ rw good (ground arith)
  ]

  answers-receive :
      (t : ℕ) (a : Arrival) (s : Session Command)
      → (pongs (receive decode t a s).actions ≡ pongs s.actions ++ ping_of a)
        × (executed (receive decode t a s).actions ≡ executed s.actions ++ command_of decode a)
  unfolding receive
  answers-receive t (tick none) s = (pongs-append s.actions _, executed-append s.actions _)
  answers-receive t (tick (some m)) s = (sym (append-nil _), sym (append-nil _))
  answers-receive t (read_error m) s = (sym (append-nil _), sym (append-nil _))
  answers-receive t (frame opcode p) s =
      let answered = answers-handle_frame opcode p in
      (
        pongs-append s.actions _ ∙ ap (λ r. pongs s.actions ++ r) answered.0,
        executed-append s.actions _ ∙ ap (λ r. executed s.actions ++ r) answered.1,
      )

  -- A session that is still open has answered every ping by a pong with its payload and handed every
  -- well-formed command to its handler, each in the order of arrival and nothing besides.
  pub answers-serve :
      (l : List (ℕ × Arrival)) (s : Session Command)
      → (serve decode l s).ending ≡ none
      → (pongs (serve decode l s).actions ≡ pongs s.actions ++ pings l)
        × (executed (serve decode l s).actions ≡ executed s.actions ++ commands decode l)
  answers-serve [] s h = answers_nil s
  answers-serve (a ∷ l) s h = elim (Option-cases s.ending) [
    | inl running ↦
        let ih = answers-serve l (receive decode a.0 a.1 s) (rw (serve_open a l s running) at h) in
        let one = answers-receive a.0 a.1 s in
        rw (serve_open a l s running, ih.0, ih.1, one.0, one.1)
          (append_assoc (pongs s.actions) _ _, append_assoc (executed s.actions) _ _)
    | inr (e, over) ↦ cc (ended_stays (a ∷ l) s e over)
  ]

  receive_ending :
      (t : ℕ) (a : Arrival) (s : Session Command)
      → is_close a ≡ false
      → ((receive decode t a s).ending ≡ some clean_close → ⊥)
  unfolding receive handle_frame
  receive_ending t (tick none) s h e = cc
  receive_ending t (tick (some m)) s h e = cc
  receive_ending t (read_error m) s h e = cc
  receive_ending t (frame opcode p) s h e = ground arith

  -- A session that was open ends with a clean close only behind a close frame of the server.
  pub clean_close-serve :
      (l : List (ℕ × Arrival)) (s : Session Command)
      → s.ending ≡ none
      → (serve decode l s).ending ≡ some clean_close
      → has_close l ≡ true
  unfolding serve
  clean_close-serve [] s o h = cc
  clean_close-serve (a ∷ l) s o h = elim (Option-cases (receive decode a.0 a.1 s).ending) [
    | inl running ↦ ground (
      arith,
      clean_close-serve l (receive decode a.0 a.1 s) running (rw (serve_open a l s o) at h),
    )
    | inr (e, over) ↦
        let stays = ended_stays l (receive decode a.0 a.1 s) e over in
        let ending : (receive decode a.0 a.1 s).ending ≡ some clean_close =
          rw (serve_open a l s o, stays) at h in
        let not_close = receive_ending a.0 a.1 s in
        elim (Bool-cases (is_close a.1)) [
          | inl close ↦ ground (arith, close)
          | inr other ↦ absurd (not_close other ending)
        ]
  ]
