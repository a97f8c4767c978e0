-- ===== src/Agent/Chats/Kept.antt =====
-- Every event keeps the invariant of the chats of agent/chat.go.
use oblireach.Base.{
  ℕ, ◌<◌, ◌≡◌, refl, ap, Bool, true, false, ◌&&◌, not, Option, none, some, List, [], ◌∷◌, Bytes,
  Table, update_self, arith, Bool-cases, Result-cases, ◌⊎◌, inl, inr,
}
use oblireach.Agent.Chats.{
  Json, Conn, init, Task, respawn, deliver, Chats, no_chat, no_chats, Host, start_chat,
  forward_chat_typing, forward_remote_request,
}
use oblireach.Agent.Chats.Events.{
  forward_chat_file, connect, accept_ended, finish_reading, tell_server, from_helper, read_failed,
  perform, perform_at, Event, open_chat, message, typing, file, remote, close_chat,
  helper_connected, accept_failed, helper_sent, pipe_failed, stop_noticed, task_run, step, run,
}
use oblireach.Agent.Chats.Invariant.{
  Inv, no_chats-Inv, touch, touch-Inv, stop-Inv, send_to-Inv, start_chat-Inv, or_same-Inv,
  others-Inv, send_active-Inv, stop_chat-Inv, forward_chat_message-Inv,
}

known :
    (n : ℕ) (s : Chats)
    → Inv s
    → ((s.chats n).waiting ≡ true) ⊎ ((s.chats n).reading ≡ true)
    → n < s.next
unfolding no_chat
known n s i h = ground (arith, i.fresh n)

accept_ended-Inv : (n : ℕ) (s : Chats) → n < s.next → Inv s → Inv (accept_ended n s)
unfolding accept_ended touch
accept_ended-Inv n s lt i =
    stop-Inv n _ (touch-Inv n s (record (s.chats n) { waiting = false }) lt refl refl i)

finish_reading-Inv : (n : ℕ) (s : Chats) → n < s.next → Inv s → Inv (finish_reading n s)
unfolding finish_reading touch
finish_reading-Inv n s lt i =
    stop-Inv n _ (touch-Inv n s (record (s.chats n) { reading = false }) lt refl refl i)

connect-Inv :
    (n : ℕ) (delivers : Bool) (s : Chats) → n < s.next → Inv s → Inv (connect n delivers s)
unfolding connect touch
connect-Inv n delivers s lt i =
    let c = s.chats n in
    let c' = record c { conn = Conn.connected; waiting = false; reading = not c.stopped } in
    send_to-Inv n c.chat_id (init c.operator_name c.operator_avatar) delivers (touch n s c') lt
      (ap (λ x. x.chat_id) (update_self s.chats n c')) (touch-Inv n s c' lt refl refl i)

module _ (decode : Bytes → Option (Table Json)) where
  perform-Inv :
      (t : Task) (host : Host) (delivers : Bool) (s : Chats)
      → Inv s
      → Inv (perform decode t host delivers s)
  unfolding perform
  perform-Inv (respawn id p m) host delivers s i =
      elim (Result-cases (start_chat host id p.name p.avatar p.session s)) [
        | inl (s', e) ↦
            rw (e, perform)
              (others-Inv s' _ _ _ (start_chat-Inv host id p.name p.avatar p.session s s' e i))
        | inr (x, e) ↦ rw (e, perform) i
      ]
  perform-Inv (deliver id m) host delivers s i = send_active-Inv delivers id s i m

  perform_at-Inv :
      (t : Option Task) (k : ℕ) (host : Host) (delivers : Bool) (s : Chats)
      → Inv s
      → Inv (perform_at decode t k host delivers s)
  unfolding perform_at
  perform_at-Inv none k host delivers s i = i
  perform_at-Inv (some t) k host delivers s i = perform-Inv t host delivers _ (others-Inv s _ _ _ i)

  step-Inv : (e : Event) (s : Chats) → Inv s → Inv (step decode e s)
  unfolding step forward_chat_typing forward_chat_file forward_remote_request from_helper
      read_failed tell_server
  step-Inv (open_chat host id name avatar session) s i =
      or_same-Inv _ s (λ s' e. start_chat-Inv host id name avatar session s s' e i) i
  step-Inv (message delivers id name text timestamp) s i =
      forward_chat_message-Inv delivers id s i name text timestamp
  step-Inv (typing delivers id) s i = send_active-Inv delivers id s i _
  step-Inv (file delivers id payload) s i = send_active-Inv delivers id s i _
  step-Inv (remote delivers id text) s i = send_active-Inv delivers id s i _
  step-Inv (close_chat delivers id) s i = stop_chat-Inv delivers id s i
  step-Inv (helper_connected n delivers) s i = elim (Bool-cases ((s.chats n).waiting)) [
    | inl on ↦ rw on (connect-Inv n delivers s (known n s i (inl on)) i)
    | inr off ↦ rw off i
  ]
  step-Inv (accept_failed n) s i = elim (Bool-cases ((s.chats n).waiting)) [
    | inl on ↦ rw on (accept_ended-Inv n s (known n s i (inl on)) i)
    | inr off ↦ rw off i
  ]
  step-Inv (helper_sent n now t payload) s i =
      elim (Bool-cases ((s.chats n).reading && not (s.chats n).stopped)) [
        | inl on ↦ rw on (others-Inv s _ _ _ i)
        | inr off ↦ rw off i
      ]
  step-Inv (pipe_failed n) s i = elim (Bool-cases ((s.chats n).reading)) [
    | inl on ↦ rw on (finish_reading-Inv n _ (known n s i (inr on)) (others-Inv s _ _ _ i))
    | inr off ↦ rw off i
  ]
  step-Inv (stop_noticed n) s i = elim (Bool-cases ((s.chats n).reading && (s.chats n).stopped)) [
    | inl on ↦ rw on (finish_reading-Inv n s (known n s i (inr (ground arith))) i)
    | inr off ↦ rw off i
  ]
  step-Inv (task_run k host delivers) s i = perform_at-Inv _ k host delivers s i

  run-Inv : (es : List Event) (s : Chats) → Inv s → Inv (run decode es s)
  unfolding run
  run-Inv [] s i = i
  run-Inv (e ∷ es) s i = run-Inv es (step decode e s) (step-Inv e s i)

  -- Whatever commands, helpers and goroutines do, and in whatever order: an active chat was started
  -- under its id and is not stopped, and each write went to a helper of the chat that it was for.
  pub run-no_chats-Inv : (es : List Event) → Inv (run decode es no_chats)
  run-no_chats-Inv es = run-Inv es no_chats no_chats-Inv
