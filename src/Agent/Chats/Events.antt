-- ===== src/Agent/Chats/Events.antt =====
-- What happens to the chats of agent/chat.go, one event at a time: the commands, the accept goroutine
-- of startChat, relayFromHelper, and the goroutines of forwardChatMessage. The JSON that a helper
-- sends is decoded by a parameter. A read that only times out changes nothing here; the bytes that it
-- has taken are the subject of Deadline.
use oblireach.Base.{
  ℕ, suc, Bool, false, ◌&&◌, not, Option, none, some, List, [], ◌∷◌, ◌++◌, Bytes, codes, Table,
  load, update, ◌==◌, if◌then◌else◌, ℤ, ok, err, get_elem?, take, drop,
}
use oblireach.Agent.Chats.{
  Json, Conn, init, file_transfer, ServerMessage, user_closed, chat_event, chat_message, Task,
  respawn, deliver, Chats, stop, send_to, Host, start_chat, or_same, stop_chat,
  forward_chat_message, send_active, forward_chat_typing, forward_remote_request,
}

abbrev pub chat_pipe_msg : ℕ
chat_pipe_msg = 0x10

abbrev pub chat_pipe_event : ℕ
chat_pipe_event = 0x12

-- forwardChatFile
unfoldable pub forward_chat_file : Bool → Bytes → Table Json → Chats → Chats
forward_chat_file delivers id payload s =
    send_active delivers id
      (file_transfer (load (codes "fileName") payload) (load (codes "fileSize") payload)
        (load (codes "fileData") payload))
      s

-- The helper connects: init goes out, and the relay starts. A chat that was stopped before is
-- connected too; its relay returns at once, and the deferred stop has nothing left to do.
unfoldable pub connect : ℕ → Bool → Chats → Chats
connect n delivers s =
    let c = s.chats n in
    let s' = record s {
      chats =
          update s.chats n
            (record c { conn = Conn.connected; waiting = false; reading = not c.stopped });
    } in
    (send_to n c.chat_id (init c.operator_name c.operator_avatar) delivers s').0

-- Accept fails, by its deadline of fifteen seconds; the deferred stop runs.
unfoldable pub accept_ended : ℕ → Chats → Chats
accept_ended n s =
    stop n (record s { chats = update s.chats n (record (s.chats n) { waiting = false }) })

-- The relay ends; the deferred stop runs.
unfoldable pub finish_reading : ℕ → Chats → Chats
finish_reading n s =
    stop n (record s { chats = update s.chats n (record (s.chats n) { reading = false }) })

unfoldable pub tell_server : ServerMessage → Chats → Chats
tell_server m s = record s { to_server = s.to_server ++ (m ∷ []) }

pub data Event : Type 0 where
  open_chat : Host → Bytes → Bytes → Bytes → ℤ → Event
  message : Bool → Bytes → Bytes → Bytes → ℤ → Event
  typing : Bool → Bytes → Event
  file : Bool → Bytes → Table Json → Event
  remote : Bool → Bytes → Bytes → Event
  close_chat : Bool → Bytes → Event
  helper_connected : ℕ → Bool → Event
  accept_failed : ℕ → Event
  helper_sent : ℕ → ℕ → ℕ → Bytes → Event
  pipe_failed : ℕ → Event
  stop_noticed : ℕ → Event
  task_run : ℕ → Host → Bool → Event

module _ (decode : Bytes → Option (Table Json)) where
  unfoldable pub relayed : Bytes → ℕ → ℕ → Option (Table Json) → List ServerMessage
  relayed id now t none = []
  relayed id now t (some fields) =
      if t == chat_pipe_event
      then chat_event id fields ∷ []
      else if t == chat_pipe_msg
      then chat_message id (load (codes "text") fields) (load (codes "from") fields) now ∷ []
      else []

  -- One message of the helper.
  unfoldable pub from_helper : ℕ → ℕ → ℕ → Bytes → Chats → Chats
  from_helper n now t payload s = record s {
    to_server = s.to_server ++ relayed (s.chats n).chat_id now t (decode payload);
  }

  -- A read that fails for another reason than the deadline.
  unfoldable pub read_failed : ℕ → Chats → Chats
  read_failed n s = finish_reading n (tell_server (user_closed (s.chats n).chat_id) s)

  -- What a goroutine of forwardChatMessage does: the start, then the message.
  unfoldable pub perform : Task → Host → Bool → Chats → Chats
  perform (respawn id p m) host delivers s = elim (start_chat host id p.name p.avatar p.session s) [
    | ok s' ↦ record s' { tasks = s'.tasks ++ (deliver id m ∷ []) }
    | err e ↦ s
  ]
  perform (deliver id m) host delivers s = send_active delivers id m s

  unfoldable pub perform_at : Option Task → ℕ → Host → Bool → Chats → Chats
  perform_at none k host delivers s = s
  perform_at (some t) k host delivers s =
      perform t host delivers (record s { tasks = take k s.tasks ++ drop (suc k) s.tasks })

  -- An event of a goroutine that does not run, or no longer, changes nothing.
  unfoldable pub step : Event → Chats → Chats
  step (open_chat host id name avatar session) s =
      or_same (start_chat host id name avatar session s) s
  step (message delivers id name text timestamp) s =
      forward_chat_message delivers id name text timestamp s
  step (typing delivers id) s = forward_chat_typing delivers id s
  step (file delivers id payload) s = forward_chat_file delivers id payload s
  step (remote delivers id text) s = forward_remote_request delivers id text s
  step (close_chat delivers id) s = stop_chat delivers id s
  step (helper_connected n delivers) s = if (s.chats n).waiting then connect n delivers s else s
  step (accept_failed n) s = if (s.chats n).waiting then accept_ended n s else s
  step (helper_sent n now t payload) s =
      if (s.chats n).reading && not (s.chats n).stopped then from_helper n now t payload s else s
  step (pipe_failed n) s = if (s.chats n).reading then read_failed n s else s
  step (stop_noticed n) s =
      if (s.chats n).reading && (s.chats n).stopped then finish_reading n s else s
  step (task_run k host delivers) s = perform_at (get_elem? s.tasks k) k host delivers s

  unfoldable pub run : List Event → Chats → Chats
  run [] s = s
  run (e ∷ es) s = run es (step e s)
