-- ===== src/Agent/Chats.antt =====
-- The chats with the users of this machine: ChatSession, activeChats, chatLastParams, startChat,
-- stopChat and the forward functions of agent/chat.go. A *ChatSession is its number. A write on a
-- pipe comes with `delivers`, false when the connection turns out to be dead.
use oblireach.Base.{
  ℕ, suc, Bool, true, false, ◌&&◌, not, Option, none, some, List, [], ◌∷◌, ◌++◌, Bytes, Table, load,
  store, delete, update, is_empty, ◌==◌, if◌then◌else◌, ℤ, pos, negsuc, Result, ok, err,
}
pub mod Events
pub mod Invariant
pub mod Kept
pub mod Messages
pub mod Closing
pub mod Unread
pub mod Abandoned
pub mod Deadline
mod Examples

-- A value of a JSON object; a number stands for its integer part.
pub data Json : Type 0 where
  text : Bytes → Json
  number : ℤ → Json
  other : Bytes → Json

pub data Conn : Type 0 where
  not_connected connected closed : Conn

pub record ChatSession : Type 0 where
  pub chat_id : Bytes
  pub operator_name : Bytes
  pub operator_avatar : Bytes
  pub session_id : ℤ
  pub conn : Conn
  pub stopped : Bool
  -- The accept goroutine waits for the helper, or runs relayFromHelper.
  pub waiting : Bool
  pub reading : Bool

pub record SpawnParams : Type 0 where
  pub name : Bytes
  pub avatar : Bytes
  pub session : ℤ

-- What the service writes to a helper.
pub data PipeMessage : Type 0 where
  init : Bytes → Bytes → PipeMessage
  operator_message : Bytes → Bytes → ℤ → PipeMessage
  operator_typing : PipeMessage
  file_transfer : Option Json → Option Json → Option Json → PipeMessage
  request_remote : Bytes → PipeMessage
  stop_helper : PipeMessage

-- What the agent sends to the server about a chat.
pub data ServerMessage : Type 0 where
  user_closed : Bytes → ServerMessage
  chat_event : Bytes → Table Json → ServerMessage
  chat_message : Bytes → Option Json → Option Json → ℕ → ServerMessage

-- A goroutine of forwardChatMessage: the respawn, and the message two seconds behind it.
pub data Task : Type 0 where
  respawn : Bytes → SpawnParams → PipeMessage → Task
  deliver : Bytes → PipeMessage → Task

pub record Chats : Type 0 where
  pub active : Table ℕ
  pub last_params : Table SpawnParams
  pub chats : ℕ → ChatSession
  pub next : ℕ
  -- The writes that went through: the chat's number, the id that the caller named, the message.
  pub sent : List (ℕ × Bytes × PipeMessage)
  pub to_server : List ServerMessage
  pub tasks : List Task

pub no_chat : ChatSession
no_chat = record {
  chat_id = [];
  operator_name = [];
  operator_avatar = [];
  session_id = pos 0;
  conn = Conn.not_connected;
  stopped = true;
  waiting = false;
  reading = false;
}

pub no_chats : Chats
no_chats = record {
  active = [];
  last_params = [];
  chats = λ _. no_chat;
  next = 0;
  sent = [];
  to_server = [];
  tasks = [];
}

pub is_open : Conn → Bool
is_open Conn.not_connected = false
is_open Conn.connected = true
is_open Conn.closed = false

-- conn.Close() on a connection that is there
pub close_conn : Conn → Conn
close_conn Conn.not_connected = Conn.not_connected
close_conn Conn.connected = Conn.closed
close_conn Conn.closed = Conn.closed

-- The body of ChatSession.stop, which sync.Once runs at most once.
pub stop_body : ℕ → Chats → Chats
stop_body n s = record s {
  active = delete (s.chats n).chat_id s.active;
  chats =
      update s.chats n (record (s.chats n) { conn = close_conn (s.chats n).conn; stopped = true });
}

-- ChatSession.stop
pub stop : ℕ → Chats → Chats
stop n s = if (s.chats n).stopped then s else stop_body n s

-- chatPipeSend on the chat's connection; the result is whether the write went through.
pub send_to : ℕ → Bytes → PipeMessage → Bool → Chats → Chats × Bool
send_to n id m delivers s =
    if is_open (s.chats n).conn && delivers
    then (record s { sent = s.sent ++ ((n, id, m) ∷ []) }, true)
    else (s, false)

-- What the platform answers: whether the listener and the path of the executable are there, the code
-- of the spawn in a session (0 is success), and the session of findCaptureSession.
pub record Host : Type 0 where
  pub listens : Bool
  pub has_executable : Bool
  pub spawn_code : ℤ → ℕ
  pub capture_session : ℤ

pub data StartError : Type 0 where
  listen_failed no_executable : StartError
  spawn_failed : ℤ → ℕ → StartError

pub target_of : ℤ → Host → ℤ
target_of (pos n) host = pos n
target_of (negsuc n) host = host.capture_session

pub add_chat : Bytes → Bytes → Bytes → ℤ → Chats → Chats
add_chat id name avatar session s = record s {
  active = store id s.next s.active;
  last_params = store id (record { name = name; avatar = avatar; session = session }) s.last_params;
  chats = update s.chats s.next (record {
    chat_id = id;
    operator_name = name;
    operator_avatar = avatar;
    session_id = session;
    conn = Conn.not_connected;
    stopped = false;
    waiting = true;
    reading = false;
  });
  next = suc s.next;
}

-- startChat
pub start_chat : Host → Bytes → Bytes → Bytes → ℤ → Chats → Result StartError Chats
start_chat host id name avatar session_id s =
    let session = target_of session_id host in
    if not host.listens
    then err listen_failed
    else if not host.has_executable
    then err no_executable
    else if host.spawn_code session == 0
    then ok (add_chat id name avatar session s)
    else err (spawn_failed session (host.spawn_code session))

pub or_same : Result StartError Chats → Chats → Chats
or_same (ok s') s = s'
or_same (err e) s = s

stop_entry : Bool → Bytes → Option ℕ → Chats → Chats
stop_entry delivers id none s = s
stop_entry delivers id (some n) s = stop n (send_to n id stop_helper delivers s).0

-- stopChat
pub stop_chat : Bool → Bytes → Chats → Chats
stop_chat delivers id s = stop_entry delivers id (load id s.active) s

-- The parameters of a respawn: those that were saved, and the name that the message came with.
pub respawn_params : Bytes → Option SpawnParams → SpawnParams
respawn_params name none = record { name = name; avatar = []; session = negsuc 0 }
respawn_params name (some p) = record {
  name = if is_empty name then p.name else name;
  avatar = p.avatar;
  session = p.session;
}

pub queue_respawn : Bytes → Bytes → PipeMessage → Chats → Chats
queue_respawn id name m s = record s {
  tasks = s.tasks ++ (respawn id (respawn_params name (load id s.last_params)) m ∷ []);
}

forward_to : Bool → Bytes → Bytes → PipeMessage → Option ℕ → Chats → Chats
forward_to delivers id name m none s = queue_respawn id name m s
forward_to delivers id name m (some n) s =
    let (s', written) = send_to n id m delivers s in
    if written then s' else queue_respawn id name m (stop n s')

-- forwardChatMessage
pub forward_chat_message : Bool → Bytes → Bytes → Bytes → ℤ → Chats → Chats
forward_chat_message delivers id name message timestamp s =
    forward_to delivers id name (operator_message message name timestamp) (load id s.active) s

send_entry : Bool → Bytes → PipeMessage → Option ℕ → Chats → Chats
send_entry delivers id m none s = s
send_entry delivers id m (some n) s = (send_to n id m delivers s).0

-- Forwarding to the helper of an active chat that is connected.
pub send_active : Bool → Bytes → PipeMessage → Chats → Chats
send_active delivers id m s = send_entry delivers id m (load id s.active) s

pub forward_chat_typing : Bool → Bytes → Chats → Chats
forward_chat_typing delivers id s = send_active delivers id operator_typing s

pub forward_remote_request : Bool → Bytes → Bytes → Chats → Chats
forward_remote_request delivers id message s = send_active delivers id (request_remote message) s
