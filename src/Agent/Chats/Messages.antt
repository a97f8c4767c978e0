-- ===== src/Agent/Chats/Messages.antt =====
-- Messages of the operator on their way to the user: forwardChatMessage of agent/chat.go and its
-- respawn.
use oblireach.Base.{
  ℕ, suc, ◌≡◌, inl, inr, refl, ◌∙◌, Bool, true, false, ◌&&◌, Option, none, some, List, [], ◌∷◌,
  ◌++◌, Bytes, Table, length, take-append, load, store, update, ◌==◌, ℤ, ok, get_elem?, take, drop,
  text_eq_refl, load-store, load-delete, update_self, arith, Option-cases,
}
use mathlib.Core.List.{append_assoc, append-nil}
use oblireach.Agent.Chats.{
  Json, Conn, SpawnParams, PipeMessage, init, operator_message, Task, respawn, deliver, Chats,
  is_open, stop, stop_body, send_to, Host, target_of, add_chat, start_chat, respawn_params,
  queue_respawn, forward_to, forward_chat_message, send_entry, send_active,
}
use oblireach.Agent.Chats.Events.{
  connect, perform, perform_at, message, helper_connected, task_run, step, run,
}
use oblireach.Agent.Chats.Invariant.{Inv}

-- The message is for a helper that can be written to.
abbrev Reaches : Bool → Bytes → Chats → Type 0
Reaches delivers id s =
    (n : ℕ) × (load id s.active ≡ some n) × ((is_open (s.chats n).conn && delivers) ≡ true)

-- A respawn is queued, and the chat is no longer active.
pub record Queued (id name : Bytes) (m : PipeMessage) (s t : Chats) : Type 0 where
  pub inactive : load id t.active ≡ none
  pub unsent : t.sent ≡ s.sent
  pub queued :
      t.tasks ≡ s.tasks ++ (respawn id (respawn_params name (load id s.last_params)) m ∷ [])
  pub params_kept : t.last_params ≡ s.last_params
  pub next_kept : t.next ≡ s.next

module _ (delivers : Bool) (id name text : Bytes) (timestamp : ℤ) (s : Chats) (i : Inv s) where
  abbrev m : PipeMessage
  m = operator_message text name timestamp

  dead_pipe :
      (n : ℕ)
      → load id s.active ≡ some n
      → (is_open (s.chats n).conn && delivers) ≡ false
      → Queued id name m s (forward_chat_message delivers id name text timestamp s)
  unfolding forward_chat_message forward_to send_to stop stop_body queue_respawn
  dead_pipe n e dead =
      rw (e, dead, i.active_running id n e, i.active_id id n e)
        (record {
          inactive = load-delete id id s.active ∙ rw (text_eq_refl id) refl;
          unsent = refl;
          queued = refl;
          params_kept = refl;
          next_kept = refl;
        })

  pub not_reached :
      ((n : ℕ) → load id s.active ≡ some n → (is_open (s.chats n).conn && delivers) ≡ false)
      → Queued id name m s (forward_chat_message delivers id name text timestamp s)
  unfolding forward_chat_message forward_to queue_respawn
  not_reached dead = elim (Option-cases (load id s.active)) [
    | inl nobody ↦ rw nobody (record {
      inactive = nobody;
      unsent = refl;
      queued = refl;
      params_kept = refl;
      next_kept = refl;
    })
    | inr (n, e) ↦ dead_pipe n e (dead n e)
  ]

get_elem?-last :
    {A : Type 0} (ts : List A) (x : A) → get_elem? (ts ++ (x ∷ [])) (length ts) ≡ some x
get_elem?-last [] x = refl
get_elem?-last (t ∷ ts) x = get_elem?-last ts x

drop-last : {A : Type 0} (ts : List A) (x : A) → drop (suc (length ts)) (ts ++ (x ∷ [])) ≡ []
drop-last [] x = refl
drop-last (t ∷ ts) x = drop-last ts x

-- The platform can start a helper for these parameters.
abbrev pub Starts : Host → SpawnParams → Type 0
Starts host p =
    (host.listens ≡ true)
    × (host.has_executable ≡ true)
    × (host.spawn_code (target_of p.session host) ≡ 0)

start_chat-Starts :
    (host : Host) (id : Bytes) (p : SpawnParams) (s : Chats)
    → Starts host p
    → start_chat host id p.name p.avatar p.session s
      ≡ ok (add_chat id p.name p.avatar (target_of p.session host) s)
unfolding start_chat
start_chat-Starts host id p s h = ground arith

module _ (decode : Bytes → Option (Table Json)) (host : Host) (id : Bytes) (p : SpawnParams)
    (m : PipeMessage) (ts : List Task) (d : Bool) (s : Chats)
    (waits : s.tasks ≡ ts ++ (respawn id p m ∷ [])) (starts : Starts host p) where
  abbrev started : Chats
  started = add_chat id p.name p.avatar (target_of p.session host) s

  respawned :
      step decode (task_run (length ts) host d) s
      ≡ record (add_chat id p.name p.avatar (target_of p.session host) s) {
        tasks = ts ++ (deliver id m ∷ []);
      }
  unfolding step perform_at perform add_chat
  respawned =
      let here : get_elem? s.tasks (length ts) ≡ some (respawn id p m) =
        rw waits (get_elem?-last ts (respawn id p m)) in
      let rest : take (length ts) s.tasks ++ drop (suc (length ts)) s.tasks ≡ ts =
        rw (waits, drop-last ts (respawn id p m), take-append ts (respawn id p m ∷ []))
          (append-nil ts) in
      rw (here, rest, perform, start_chat-Starts host id p (record s { tasks = ts }) starts) refl

  -- The state behind the respawn, and behind the connection of its helper.
  abbrev spawned : Chats
  spawned = record (add_chat id p.name p.avatar (target_of p.session host) s) {
    tasks = ts ++ (deliver id m ∷ []);
  }

  spawned_chat : spawned.chats s.next ≡ record {
    chat_id = id;
    operator_name = p.name;
    operator_avatar = p.avatar;
    session_id = target_of p.session host;
    conn = Conn.not_connected;
    stopped = false;
    waiting = true;
    reading = false;
  }
  unfolding add_chat
  spawned_chat = update_self s.chats s.next _

  abbrev helped : Chats
  helped = record spawned {
    chats = update spawned.chats s.next (record {
      chat_id = id;
      operator_name = p.name;
      operator_avatar = p.avatar;
      session_id = target_of p.session host;
      conn = Conn.connected;
      stopped = false;
      waiting = false;
      reading = true;
    });
    sent = s.sent ++ ((s.next, id, init p.name p.avatar) ∷ []);
  }

  connected : step decode (helper_connected s.next true) spawned ≡ helped
  unfolding step connect send_to is_open add_chat
  connected =
      let same : (s.next == s.next) ≡ true = ground arith in
      rw (spawned_chat, connect, send_to, same) refl

  delivered :
      (step decode (task_run (length ts) host true) helped).sent
      ≡ s.sent ++ ((s.next, id, init p.name p.avatar) ∷ (s.next, id, m) ∷ [])
  unfolding step perform_at perform send_active send_entry send_to is_open add_chat
  delivered =
      let same : (s.next == s.next) ≡ true = ground arith in
      let found : load id (store id s.next s.active) ≡ some s.next =
        load-store id id s.next s.active ∙ rw (text_eq_refl id) refl in
      rw (get_elem?-last ts (deliver id m), perform, found, send_entry, send_to, same)
        (append_assoc s.sent ((s.next, id, init p.name p.avatar) ∷ []) ((s.next, id, m) ∷ []))

  -- A queued respawn that the platform can start ends with the message on the pipe of a new helper,
  -- behind its init, once the helper has connected.
  respawn_delivers :
      (run decode
        (task_run (length ts) host d
          ∷ helper_connected s.next true
          ∷ task_run (length ts) host true
          ∷ [])
        s).sent
      ≡ s.sent ++ ((s.next, id, init p.name p.avatar) ∷ (s.next, id, m) ∷ [])
  unfolding run
  respawn_delivers = rw (respawned, connected) delivered

-- A message that no helper can be given is not lost: where the platform can start a helper with the
-- parameters of the respawn, the goroutine's start, the connection of the new helper, and the
-- goroutine's write put it on the pipe of the new helper, behind init.
pub forward_chat_message_respawns :
    (decode : Bytes → Option (Table Json)) (host : Host) (delivers d : Bool) (id name text : Bytes)
    (timestamp : ℤ) (s : Chats)
    → Inv s
    → ((n : ℕ) → load id s.active ≡ some n → (is_open (s.chats n).conn && delivers) ≡ false)
    → Starts host (respawn_params name (load id s.last_params))
    → (run decode
        (message delivers id name text timestamp
          ∷ task_run (length s.tasks) host d
          ∷ helper_connected s.next true
          ∷ task_run (length s.tasks) host true
          ∷ [])
        s).sent
      ≡ s.sent
        ++ ((
          s.next,
          id,
          init
              (respawn_params name (load id s.last_params)).name
              (respawn_params name (load id s.last_params)).avatar,
        )
            ∷ (s.next, id, operator_message text name timestamp)
            ∷ [])
unfolding run step forward_chat_message forward_to
forward_chat_message_respawns decode host delivers d id name text timestamp s i dead starts =
    let p = respawn_params name (load id s.last_params) in
    let m = operator_message text name timestamp in
    let s' = forward_chat_message delivers id name text timestamp s in
    let q = not_reached delivers id name text timestamp s i dead in
    rw (q.next_kept, q.unsent) at (respawn_delivers decode host id p m s.tasks d s' q.queued starts)
