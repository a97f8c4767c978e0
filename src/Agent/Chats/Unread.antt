-- ===== src/Agent/Chats/Unread.antt =====
-- A chat of agent/chat.go whose helper is connected while the chat is stopped: what leaves it so.
use oblireach.Base.{
  ℕ, ◌<◌, ◌≡◌, ◌≢◌, ◌⊎◌, inl, inr, refl, Bool, true, false, ◌&&◌, List, Bytes, Table, load, update,
  ℤ, Result, ok, err, arith, Bool-cases, Option-cases,
}
use oblireach.Agent.Chats.{
  Conn, ChatSession, SpawnParams, PipeMessage, operator_message, stop_helper, ServerMessage, Task,
  Chats, is_open, stop, stop_body, send_to, Host, target_of, add_chat, start_chat, or_same,
  stop_entry, stop_chat, queue_respawn, forward_to, forward_chat_message, send_entry, send_active,
}
use oblireach.Agent.Chats.Invariant.{start_chat_ok}

-- A helper that is connected to a chat that is stopped, and that nobody reads from.
pub record Abandoned (n : ℕ) (s : Chats) : Type 0 where
  pub started : n < s.next
  pub stopped : (s.chats n).stopped ≡ true
  pub conn_open : (s.chats n).conn ≡ Conn.connected
  pub not_waiting : (s.chats n).waiting ≡ false
  pub not_reading : (s.chats n).reading ≡ false

module _ (n : ℕ) where
  pub stop-Abandoned : (k : ℕ) (s : Chats) → Abandoned n s → Abandoned n (stop k s)
  unfolding stop stop_body
  stop-Abandoned k s a = elim (Bool-cases (s.chats k).stopped) [
    | inl old ↦ rw old a
    | inr running ↦ rw running (record {
      started = a.started;
      stopped = ground arith;
      conn_open = ground arith;
      not_waiting = ground arith;
      not_reading = ground arith;
    })
  ]

  pub send_to-Abandoned :
      (k : ℕ) (id : Bytes) (m : PipeMessage) (d : Bool) (s : Chats)
      → Abandoned n s
      → Abandoned n (send_to k id m d s).0
  unfolding send_to
  send_to-Abandoned k id m d s a = elim (Bool-cases (is_open (s.chats k).conn && d)) [
    | inl sent ↦ rw sent (record {
      started = a.started;
      stopped = a.stopped;
      conn_open = a.conn_open;
      not_waiting = a.not_waiting;
      not_reading = a.not_reading;
    })
    | inr unsent ↦ rw unsent a
  ]

  pub add_chat-Abandoned :
      (id name avatar : Bytes) (session : ℤ) (s : Chats)
      → Abandoned n s
      → Abandoned n (add_chat id name avatar session s)
  unfolding add_chat
  add_chat-Abandoned id name avatar session s a = record {
    started = omega arith;
    stopped = ground arith;
    conn_open = ground arith;
    not_waiting = ground arith;
    not_reading = ground arith;
  }

  -- The fields that do not matter here.
  pub others-Abandoned :
      (s : Chats) (t : Table ℕ) (p : Table SpawnParams) (w : List (ℕ × Bytes × PipeMessage))
      (ms : List ServerMessage) (ts : List Task)
      → Abandoned n s
      → Abandoned n (record s { active = t; last_params = p; sent = w; to_server = ms; tasks = ts })
  others-Abandoned s t p w ms ts a = record {
    started = a.started;
    stopped = a.stopped;
    conn_open = a.conn_open;
    not_waiting = a.not_waiting;
    not_reading = a.not_reading;
  }

  pub touched-Abandoned :
      (k : ℕ) (s : Chats) (c : ChatSession)
      → k ≢ n
      → Abandoned n s
      → Abandoned n (record s { chats = update s.chats k c })
  touched-Abandoned k s c ne a = record {
    started = a.started;
    stopped = ground arith;
    conn_open = ground arith;
    not_waiting = ground arith;
    not_reading = ground arith;
  }

  pub start_chat-Abandoned :
      (host : Host) (id name avatar : Bytes) (session : ℤ) (s s' : Chats)
      → start_chat host id name avatar session s ≡ ok s'
      → Abandoned n s
      → Abandoned n s'
  start_chat-Abandoned host id name avatar session s s' e a =
      rw (start_chat_ok host id name avatar session s s' e)
        (add_chat-Abandoned id name avatar (target_of session host) s a)

  pub send_active-Abandoned :
      (d : Bool) (id : Bytes) (m : PipeMessage) (s : Chats)
      → Abandoned n s
      → Abandoned n (send_active d id m s)
  unfolding send_active send_entry
  send_active-Abandoned d id m s a = elim (Option-cases (load id s.active)) [
    | inl nobody ↦ rw nobody a
    | inr (k, e) ↦ rw e (send_to-Abandoned k id m d s a)
  ]

  pub forward_chat_message-Abandoned :
      (d : Bool) (id name text : Bytes) (timestamp : ℤ) (s : Chats)
      → Abandoned n s
      → Abandoned n (forward_chat_message d id name text timestamp s)
  unfolding forward_chat_message forward_to queue_respawn
  forward_chat_message-Abandoned d id name text timestamp s a =
      elim (Option-cases (load id s.active)) [
        | inl nobody ↦ rw nobody (others-Abandoned s _ _ _ _ _ a)
        | inr (k, e) ↦
            let m = operator_message text name timestamp in
            let b = send_to-Abandoned k id m d s a in
            rw e (elim (Bool-cases (send_to k id m d s).1) [
              | inl written ↦ rw written b
              | inr dead ↦ rw dead (others-Abandoned _ _ _ _ _ _ (stop-Abandoned k _ b))
            ])
      ]

  pub stop_chat-Abandoned :
      (d : Bool) (id : Bytes) (s : Chats) → Abandoned n s → Abandoned n (stop_chat d id s)
  unfolding stop_chat stop_entry
  stop_chat-Abandoned d id s a = elim (Option-cases (load id s.active)) [
    | inl nobody ↦ rw nobody a
    | inr (k, e) ↦ rw e (stop-Abandoned k _ (send_to-Abandoned k id stop_helper d s a))
  ]

  pub or_same-Abandoned :
      (r : Result _ Chats) (s : Chats)
      → ((s' : Chats) → r ≡ ok s' → Abandoned n s')
      → Abandoned n s
      → Abandoned n (or_same r s)
  unfolding or_same
  or_same-Abandoned (ok s') s h a = h s' refl
  or_same-Abandoned (err x) s h a = a

  -- A goroutine that still works for a chat is not this one's.
  pub elsewhere :
      (k : ℕ) (s : Chats)
      → ((s.chats k).waiting ≡ true) ⊎ ((s.chats k).reading ≡ true)
      → Abandoned n s
      → k ≢ n
  elsewhere k s (inl h) a e = absurd (let x : (s.chats n).waiting ≡ true = rw (← e) h in cc)
  elsewhere k s (inr h) a e = absurd (let x : (s.chats n).reading ≡ true = rw (← e) h in cc)
