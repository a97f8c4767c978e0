-- ===== src/Agent/Chats/Invariant.antt =====
-- What holds of the chats of agent/chat.go whatever happens: an active chat is one that was started
-- under its id and is not stopped, and a message reaches only helpers of the chat it is for.
use oblireach.Base.{
  ℕ, ◌≤◌, ◌<◌, ◌≡◌, refl, Bool, false, ◌&&◌, some, List, [], ◌∷◌, Bytes, Table, All, All-append,
  load, update, ℤ, Result, ok, err, text_eq_iff, load-store, load-delete, arith, Bool-cases,
  Option-cases, inl, inr,
}
use oblireach.Agent.Chats.{
  ChatSession, SpawnParams, PipeMessage, operator_message, stop_helper, StartError, target_of, Task,
  Chats, no_chat, no_chats, is_open, stop, stop_body, send_to, Host, add_chat, start_chat, or_same,
  stop_entry, stop_chat, queue_respawn, forward_to, forward_chat_message, send_entry, send_active,
  ServerMessage,
}

-- A write went to a chat that was started under the id that the caller named.
abbrev pub Addressed : Chats → ℕ × Bytes × PipeMessage → Type 0
Addressed s w = (w.0 < s.next) × ((s.chats w.0).chat_id ≡ w.1)

pub record Inv (s : Chats) : Type 0 where
  pub active_known : (id : Bytes) (n : ℕ) → load id s.active ≡ some n → n < s.next
  pub active_id : (id : Bytes) (n : ℕ) → load id s.active ≡ some n → (s.chats n).chat_id ≡ id
  pub active_running :
      (id : Bytes) (n : ℕ) → load id s.active ≡ some n → (s.chats n).stopped ≡ false
  pub addressed : All (Addressed s) s.sent
  pub fresh : (n : ℕ) → s.next ≤ n → s.chats n ≡ no_chat

All-map :
    {A : Type 0} (P Q : A → Type 0) (xs : List A) → ((a : A) → P a → Q a) → All P xs → All Q xs
All-map P Q [] f h = h
All-map P Q (x ∷ xs) f h = (f x h.0, All-map P Q xs f h.1)

pub no_chats-Inv : Inv no_chats
unfolding no_chats load
no_chats-Inv = record {
  active_known = λ id n e. absurd (cc);
  active_id = λ id n e. absurd (cc);
  active_running = λ id n e. absurd (cc);
  addressed = tt;
  fresh = λ n h. refl;
}

-- Changing what the invariant does not look at: the connection and the flags of the goroutines.
module _ (n : ℕ) (s : Chats) (c : ChatSession) where
  unfoldable pub touch : Chats
  touch = record s { chats = update s.chats n c }

  pub touch-Inv :
      n < s.next
      → c.chat_id ≡ (s.chats n).chat_id
      → c.stopped ≡ (s.chats n).stopped
      → Inv s
      → Inv touch
  unfolding touch
  touch-Inv lt same_id same_stopped i = record {
    active_known = i.active_known;
    active_id = λ id m e. ground (arith, i.active_id id m);
    active_running = λ id m e. ground (arith, i.active_running id m);
    addressed =
        All-map (Addressed s) (Addressed touch) s.sent (λ w h. (h.0, ground arith)) i.addressed;
    fresh = λ m h. ground (arith, i.fresh m);
  }

stop_body-Inv : (n : ℕ) (s : Chats) → (s.chats n).stopped ≡ false → Inv s → Inv (stop_body n s)
unfolding stop_body no_chat
stop_body-Inv n s running i =
    let gone = λ (id : Bytes). load-delete (s.chats n).chat_id id s.active in
    record {
      active_known = λ id m e. ground (arith, gone id, i.active_known id m);
      active_id = λ id m e. ground (arith, gone id, i.active_id id m);
      active_running = λ id m e. ground (
        arith,
        gone id,
        i.active_id id m,
        i.active_running id m,
        text_eq_iff (s.chats n).chat_id id,
      );
      addressed =
          All-map (Addressed s) (Addressed (stop_body n s)) s.sent (λ w h. (h.0, ground arith))
            i.addressed;
      fresh = λ m h. ground (arith, i.fresh m, i.fresh n);
    }

pub stop-Inv : (n : ℕ) (s : Chats) → Inv s → Inv (stop n s)
unfolding stop
stop-Inv n s i = elim (Bool-cases (s.chats n).stopped) [
  | inl old ↦ rw old i
  | inr running ↦ rw running (stop_body-Inv n s running i)
]

-- Writes: the connection is tested, and nothing but the log changes.
pub send_to-Inv :
    (n : ℕ) (id : Bytes) (m : PipeMessage) (delivers : Bool) (s : Chats)
    → n < s.next
    → (s.chats n).chat_id ≡ id
    → Inv s
    → Inv (send_to n id m delivers s).0
unfolding send_to
send_to-Inv n id m delivers s lt same i = elim (Bool-cases (is_open (s.chats n).conn && delivers)) [
  | inr not_sent ↦ rw not_sent i
  | inl sent ↦ rw sent (record {
    active_known = i.active_known;
    active_id = i.active_id;
    active_running = i.active_running;
    addressed = All-append (Addressed s) s.sent ((n, id, m) ∷ []) i.addressed ((lt, same), tt);
    fresh = i.fresh;
  })
]

add_chat-Inv :
    (id name avatar : Bytes) (session : ℤ) (s : Chats)
    → Inv s
    → Inv (add_chat id name avatar session s)
unfolding add_chat
add_chat-Inv id name avatar session s i =
    let added = λ (j : Bytes). load-store id j s.next s.active in
    record {
      active_known = λ j m e. ground (arith, added j, i.active_known j m);
      active_id =
          λ j m e. ground (arith, added j, i.active_known j m, i.active_id j m, text_eq_iff id j);
      active_running = λ j m e. ground (arith, added j, i.active_known j m, i.active_running j m);
      addressed =
          All-map (Addressed s) (Addressed (add_chat id name avatar session s)) s.sent
            (λ w h. (omega arith, ground arith)) i.addressed;
      fresh = λ m h. ground (arith, i.fresh m);
    }

-- A start that succeeds has added the chat, in the session that was resolved.
pub start_chat_ok :
    (host : Host) (id name avatar : Bytes) (session : ℤ) (s s' : Chats)
    → start_chat host id name avatar session s ≡ ok s'
    → s' ≡ add_chat id name avatar (target_of session host) s
unfolding start_chat
start_chat_ok host id name avatar session s s' e = ground arith

pub start_chat-Inv :
    (host : Host) (id name avatar : Bytes) (session : ℤ) (s s' : Chats)
    → start_chat host id name avatar session s ≡ ok s'
    → Inv s
    → Inv s'
start_chat-Inv host id name avatar session s s' e i =
    rw (start_chat_ok host id name avatar session s s' e)
      (add_chat-Inv id name avatar (target_of session host) s i)

pub or_same-Inv :
    (r : Result StartError Chats) (s : Chats)
    → ((s' : Chats) → r ≡ ok s' → Inv s')
    → Inv s
    → Inv (or_same r s)
unfolding or_same
or_same-Inv (ok s') s h i = h s' refl
or_same-Inv (err e) s h i = i

-- The other fields do not matter.
pub others-Inv :
    (s : Chats) (p : Table SpawnParams) (ms : List ServerMessage) (ts : List Task)
    → Inv s
    → Inv (record s { last_params = p; to_server = ms; tasks = ts })
others-Inv s p ms ts i = record {
  active_known = i.active_known;
  active_id = i.active_id;
  active_running = i.active_running;
  addressed = i.addressed;
  fresh = i.fresh;
}

pub queue_respawn-Inv :
    (id name : Bytes) (m : PipeMessage) (s : Chats) → Inv s → Inv (queue_respawn id name m s)
unfolding queue_respawn
queue_respawn-Inv id name m s i = others-Inv s _ _ _ i

module _ (delivers : Bool) (id : Bytes) (s : Chats) (i : Inv s) where
  pub send_active-Inv : (m : PipeMessage) → Inv (send_active delivers id m s)
  unfolding send_active send_entry
  send_active-Inv m = elim (Option-cases (load id s.active)) [
    | inl nobody ↦ rw nobody i
    | inr (n, e) ↦
        rw e (send_to-Inv n id m delivers s (i.active_known id n e) (i.active_id id n e) i)
  ]

  pub stop_chat-Inv : Inv (stop_chat delivers id s)
  unfolding stop_chat stop_entry
  stop_chat-Inv = elim (Option-cases (load id s.active)) [
    | inl nobody ↦ rw nobody i
    | inr (n, e) ↦ rw e (
        stop-Inv n _
          (send_to-Inv n id stop_helper delivers s (i.active_known id n e) (i.active_id id n e) i))
  ]

  pub forward_chat_message-Inv :
      (name text : Bytes) (timestamp : ℤ)
      → Inv (forward_chat_message delivers id name text timestamp s)
  unfolding forward_chat_message forward_to
  forward_chat_message-Inv name text timestamp = elim (Option-cases (load id s.active)) [
    | inl nobody ↦ rw nobody (queue_respawn-Inv id name _ s i)
    | inr (n, e) ↦
        let m = operator_message text name timestamp in
        let j = send_to-Inv n id m delivers s (i.active_known id n e) (i.active_id id n e) i in
        rw e (elim (Bool-cases (send_to n id m delivers s).1) [
          | inl written ↦ rw written j
          | inr dead ↦ rw dead (queue_respawn-Inv id name m _ (stop-Inv n _ j))
        ])
  ]
