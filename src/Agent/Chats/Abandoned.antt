-- ===== src/Agent/Chats/Abandoned.antt =====
-- A chat of agent/chat.go that is closed before its helper has connected.
use oblireach.Base.{
  ℕ, ◌<◌, ◌≡◌, inl, inr, refl, Bool, true, false, ◌&&◌, not, Option, none, some, List, [], ◌∷◌,
  Bytes, Table, load, ◌==◌, arith, Bool-cases, Result-cases,
}
use oblireach.Agent.Chats.{
  Json, Conn, Task, respawn, deliver, Chats, is_open, stop, stop_body, send_to, Host, start_chat,
  stop_entry, stop_chat, forward_chat_typing, forward_remote_request,
}
use oblireach.Agent.Chats.Events.{
  forward_chat_file, connect, accept_ended, finish_reading, tell_server, from_helper, read_failed,
  perform, perform_at, Event, open_chat, message, typing, file, remote, close_chat,
  helper_connected, accept_failed, helper_sent, pipe_failed, stop_noticed, task_run, step, run,
}
use oblireach.Agent.Chats.Invariant.{Inv}
use oblireach.Agent.Chats.Unread.{
  Abandoned, stop-Abandoned, send_to-Abandoned, others-Abandoned, touched-Abandoned,
  start_chat-Abandoned, send_active-Abandoned, forward_chat_message-Abandoned, stop_chat-Abandoned,
  or_same-Abandoned, elsewhere,
}

connect-Abandoned :
    (n : ℕ) (d : Bool) (s : Chats)
    → n < s.next
    → (s.chats n).stopped ≡ true
    → Abandoned n (connect n d s)
unfolding connect send_to is_open
connect-Abandoned n true s lt h = record {
  started = ground arith;
  stopped = ground arith;
  conn_open = ground arith;
  not_waiting = ground arith;
  not_reading = ground arith;
}
connect-Abandoned n false s lt h = record {
  started = ground arith;
  stopped = ground arith;
  conn_open = ground arith;
  not_waiting = ground arith;
  not_reading = ground arith;
}

closed_early :
    (decode : Bytes → Option (Table Json)) (delivers : Bool) (id : Bytes) (n : ℕ) (s : Chats)
    → Inv s
    → load id s.active ≡ some n
    → (s.chats n).conn ≡ Conn.not_connected
    → step decode (close_chat delivers id) s ≡ stop_body n s
unfolding step stop_chat stop_entry stop send_to is_open
closed_early decode delivers id n s i e c = rw (e, c, i.active_running id n e) refl

close_before_connect :
    (decode : Bytes → Option (Table Json)) (delivers d : Bool) (id : Bytes) (n : ℕ) (s : Chats)
    → Inv s
    → load id s.active ≡ some n
    → (s.chats n).conn ≡ Conn.not_connected
    → (s.chats n).waiting ≡ true
    → Abandoned n (run decode (close_chat delivers id ∷ helper_connected n d ∷ []) s)
unfolding run step
close_before_connect decode delivers d id n s i e c w =
    let same : (n == n) ≡ true = ground arith in
    rw (closed_early decode delivers id n s i e c) (
      rw
        (let still : ((stop_body n s).chats n).waiting ≡ true = unfold stop_body in ground arith in
          still)
        (connect-Abandoned n d (stop_body n s) (unfold stop_body in i.active_known id n e)
          (unfold stop_body in ground arith)))

-- Nothing changes that.
module _ (n : ℕ) where
  module _ (decode : Bytes → Option (Table Json)) where
    perform-Abandoned :
        (t : Task) (host : Host) (d : Bool) (s : Chats)
        → Abandoned n s
        → Abandoned n (perform decode t host d s)
    unfolding perform
    perform-Abandoned (respawn id p m) host d s a =
        elim (Result-cases (start_chat host id p.name p.avatar p.session s)) [
          | inl (s', e) ↦
              rw (e, perform)
                (others-Abandoned n s' _ _ _ _ _
                  (start_chat-Abandoned n host id p.name p.avatar p.session s s' e a))
          | inr (x, e) ↦ rw (e, perform) a
        ]
    perform-Abandoned (deliver id m) host d s a = send_active-Abandoned n d id m s a

    perform_at-Abandoned :
        (t : Option Task) (k : ℕ) (host : Host) (d : Bool) (s : Chats)
        → Abandoned n s
        → Abandoned n (perform_at decode t k host d s)
    unfolding perform_at
    perform_at-Abandoned none k host d s a = a
    perform_at-Abandoned (some t) k host d s a =
        perform-Abandoned t host d _ (others-Abandoned n s _ _ _ _ _ a)

    step-Abandoned : (e : Event) (s : Chats) → Abandoned n s → Abandoned n (step decode e s)
    unfolding step forward_chat_typing forward_chat_file forward_remote_request from_helper
        read_failed tell_server connect accept_ended finish_reading
    step-Abandoned (open_chat host id name avatar session) s a =
        or_same-Abandoned n _ s
          (λ s' e. start_chat-Abandoned n host id name avatar session s s' e a) a
    step-Abandoned (message d id name text timestamp) s a =
        forward_chat_message-Abandoned n d id name text timestamp s a
    step-Abandoned (typing d id) s a = send_active-Abandoned n d id _ s a
    step-Abandoned (file d id payload) s a = send_active-Abandoned n d id _ s a
    step-Abandoned (remote d id text) s a = send_active-Abandoned n d id _ s a
    step-Abandoned (close_chat d id) s a = stop_chat-Abandoned n d id s a
    step-Abandoned (helper_connected k d) s a = elim (Bool-cases (s.chats k).waiting) [
      | inl on ↦
          rw on (
            send_to-Abandoned n k _ _ d _
              (touched-Abandoned n k s _ (elsewhere n k s (inl on) a) a))
      | inr off ↦ rw off a
    ]
    step-Abandoned (accept_failed k) s a = elim (Bool-cases (s.chats k).waiting) [
      | inl on ↦
          rw on (stop-Abandoned n k _ (touched-Abandoned n k s _ (elsewhere n k s (inl on) a) a))
      | inr off ↦ rw off a
    ]
    step-Abandoned (helper_sent k now t payload) s a =
        elim (Bool-cases ((s.chats k).reading && not (s.chats k).stopped)) [
          | inl on ↦ rw on (others-Abandoned n s _ _ _ _ _ a)
          | inr off ↦ rw off a
        ]
    step-Abandoned (pipe_failed k) s a = elim (Bool-cases (s.chats k).reading) [
      | inl on ↦
          let b = others-Abandoned n s _ _ _ _ _ a in
          rw on (stop-Abandoned n k _ (touched-Abandoned n k _ _ (elsewhere n k s (inr on) a) b))
      | inr off ↦ rw off a
    ]
    step-Abandoned (stop_noticed k) s a =
        elim (Bool-cases ((s.chats k).reading && (s.chats k).stopped)) [
          | inl on ↦ rw on (
              stop-Abandoned n k _
                (touched-Abandoned n k s _ (elsewhere n k s (inr (ground arith)) a) a))
          | inr off ↦ rw off a
        ]
    step-Abandoned (task_run k host d) s a = perform_at-Abandoned _ k host d s a

    run-Abandoned : (es : List Event) (s : Chats) → Abandoned n s → Abandoned n (run decode es s)
    unfolding run
    run-Abandoned [] s a = a
    run-Abandoned (e ∷ es) s a = run-Abandoned es (step decode e s) (step-Abandoned e s a)

-- A chat that is closed before its helper has connected: the helper is connected all the same, and
-- whatever happens afterwards the chat is stopped, its connection stays open and nobody reads from
-- it.
pub closed_before_connect :
    (decode : Bytes → Option (Table Json)) (delivers d : Bool) (id : Bytes) (n : ℕ) (s : Chats)
    (es : List Event)
    → Inv s
    → load id s.active ≡ some n
    → (s.chats n).conn ≡ Conn.not_connected
    → (s.chats n).waiting ≡ true
    → Abandoned n
        (run decode es (run decode (close_chat delivers id ∷ helper_connected n d ∷ []) s))
closed_before_connect decode delivers d id n s es i e c w =
    run-Abandoned n decode es _ (close_before_connect decode delivers d id n s i e c w)
