-- ===== src/Agent/Commands.antt =====
-- The commands of the server: handleCommand and payloadString of agent/push.go, with what each does
-- to the streams (agent/stream.go) and the chats (agent/chat.go). A goroutine that only shows a
-- notification or runs the installer is an entry of a log.
use oblireach.Base.{
  ℕ, suc, Bool, true, false, Option, none, some, List, [], ◌∷◌, ◌++◌, Bytes, codes, Table, load,
  is_empty, text_eq, ltb, ◌==◌, if◌then◌else◌, ℤ, pos, negsuc,
}
use oblireach.Agent.Streams.{
  Streams, Platform, Route, route_of, start_stream, stop_stream, no_streams,
}
use oblireach.Agent.Chats.{
  Json, text, number, Chats, Host, no_chats, start_chat, or_same, stop_chat, forward_chat_message,
  forward_chat_typing, forward_remote_request,
}
use oblireach.Agent.Chats.Events.{forward_chat_file}
pub mod Effects
pub mod Push
mod Examples

pub record Command : Type 0 where
  pub kind : Bytes
  pub id : Bytes
  pub payload : Table Json

-- The cases of the switch.
pub data Kind : Type 0 where
  open_remote_tunnel close_remote_tunnel update open_chat chat_message close_chat request_remote
        chat_typing chat_file unknown :
      Kind

pub kind_of : Bytes → Kind
kind_of t =
    if text_eq t (codes "open_remote_tunnel")
    then Kind.open_remote_tunnel
    else if text_eq t (codes "close_remote_tunnel")
    then Kind.close_remote_tunnel
    else if text_eq t (codes "update")
    then Kind.update
    else if text_eq t (codes "open_chat")
    then Kind.open_chat
    else if text_eq t (codes "chat_message")
    then Kind.chat_message
    else if text_eq t (codes "close_chat")
    then Kind.close_chat
    else if text_eq t (codes "request_remote")
    then Kind.request_remote
    else if text_eq t (codes "chat_typing")
    then Kind.chat_typing
    else if text_eq t (codes "chat_file")
    then Kind.chat_file
    else Kind.unknown

pub text_or_empty : Option Json → Bytes
text_or_empty none = []
text_or_empty (some (text t)) = t
text_or_empty (some (number z)) = []
text_or_empty (some (Json.other o)) = []

-- payloadString, and `v, _ := cmd.Payload[key].(string)`
pub payload_string : Table Json → Bytes → Bytes
payload_string payload key = text_or_empty (load key payload)

pub integer_or : ℤ → Option Json → ℤ
integer_or d none = d
integer_or d (some (text t)) = d
integer_or d (some (number z)) = z
integer_or d (some (Json.other o)) = d

-- `if f, ok := raw.(float64); ok { n = int(f) }`
pub payload_int : ℤ → Table Json → Bytes → ℤ
payload_int d payload key = integer_or d (load key payload)

-- notifySession: the session, the name, and whether a connection opens.
pub record Notice : Type 0 where
  pub session : ℤ
  pub username : Bytes
  pub opens : Bool

pub record Agent : Type 0 where
  pub streams : Streams
  pub chats : Chats
  pub notices : List Notice
  -- The tokens of the streams that were started, each with its route.
  pub routes : List (Bytes × Route)
  -- performUpdate: the address and the version.
  pub updates : List (Bytes × Bytes)

pub fresh_agent : Agent
fresh_agent = record {
  streams = no_streams;
  chats = no_chats;
  notices = [];
  routes = [];
  updates = [];
}

-- What the outside answers while a command runs: the platform and the host, whether the stream's
-- connection succeeds, and whether a pipe is alive.
pub record World : Type 0 where
  pub platform : Platform
  pub host : Host
  pub connects : Bool
  pub delivers : Bool

pub notify : ℤ → Bytes → Bool → Agent → Agent
notify session username opens a = if is_empty username then a else record a {
  notices = a.notices ++ (record { session = session; username = username; opens = opens } ∷ []);
}

-- `notifyTarget := sessionID; if notifyTarget < 0 { notifyTarget = findCaptureSession() }`
pub notify_target : ℤ → Host → ℤ
notify_target (pos n) host = pos n
notify_target (negsuc n) host = host.capture_session

pub begin_stream : Bytes → ℤ → World → Agent → Agent
begin_stream token session_id w a = record a {
  streams = start_stream token w.connects a.streams;
  routes =
      (if w.connects then a.routes ++ ((token, route_of session_id w.platform) ∷ []) else a.routes);
}

pub open_tunnel : Table Json → World → Agent → Agent
open_tunnel payload w a =
    let token = payload_string payload (codes "sessionToken") in
    let session_id = payload_int (negsuc 0) payload (codes "sessionId") in
    if is_empty token
    then a
    else begin_stream token session_id w (
        notify (notify_target session_id w.host) (payload_string payload (codes "username")) true a)

pub close_tunnel : Table Json → World → Agent → Agent
close_tunnel payload w a =
    let token = payload_string payload (codes "sessionToken") in
    let a' = notify w.host.capture_session (payload_string payload (codes "username")) false a in
    if is_empty token then a else record a' { streams = stop_stream token a'.streams }

pub self_update : Table Json → Agent → Agent
self_update payload a =
    let url = payload_string payload (codes "url") in
    if is_empty url
    then a
    else record a { updates = a.updates ++ ((url, payload_string payload (codes "version")) ∷ []) }

pub start_chat_command : Table Json → World → Agent → Agent
start_chat_command payload w a =
    let chat_id = payload_string payload (codes "chatId") in
    let name = payload_string payload (codes "operatorName") in
    let avatar = payload_string payload (codes "operatorAvatar") in
    let session_id = payload_int (negsuc 0) payload (codes "sessionId") in
    if is_empty chat_id then a else record a {
      chats = or_same (start_chat w.host chat_id name avatar session_id a.chats) a.chats;
    }

pub handle_kind : Kind → Table Json → World → Agent → Agent
handle_kind Kind.open_remote_tunnel payload w a = open_tunnel payload w a
handle_kind Kind.close_remote_tunnel payload w a = close_tunnel payload w a
handle_kind Kind.update payload w a = self_update payload a
handle_kind Kind.open_chat payload w a = start_chat_command payload w a
handle_kind Kind.chat_message payload w a = record a {
  chats =
      forward_chat_message w.delivers (payload_string payload (codes "chatId"))
        (payload_string payload (codes "operatorName")) (payload_string payload (codes "message"))
        (payload_int (pos 0) payload (codes "timestamp")) a.chats;
}
handle_kind Kind.close_chat payload w a = record a {
  chats = stop_chat w.delivers (payload_string payload (codes "chatId")) a.chats;
}
handle_kind Kind.request_remote payload w a = record a {
  chats =
      forward_remote_request w.delivers (payload_string payload (codes "chatId"))
        (payload_string payload (codes "message")) a.chats;
}
handle_kind Kind.chat_typing payload w a = record a {
  chats = forward_chat_typing w.delivers (payload_string payload (codes "chatId")) a.chats;
}
handle_kind Kind.chat_file payload w a = record a {
  chats = forward_chat_file w.delivers (payload_string payload (codes "chatId")) payload a.chats;
}
handle_kind Kind.unknown payload w a = a

-- handleCommand
pub handle_command : Command → World → Agent → Agent
handle_command c w a = handle_kind (kind_of c.kind) c.payload w a
