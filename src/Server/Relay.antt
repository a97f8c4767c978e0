-- ===== src/Server/Relay.antt =====
-- The tunnel of server/relay.go, after authentication. A connection's goroutine is a state on the
-- heap `conns`, and the scheduler, the peers and the timers choose the next `Event`: a waiting
-- connection receives its partner, times out or is cancelled; a tunnelling one reads a frame
-- (inbound pump), writes one (outbound pump) or disconnects. `message_type` is json.Unmarshal into
-- the struct with the field "type".
pub mod Steps
pub mod Pairing
pub mod Echo
pub mod Limits
pub mod Lifetime
mod Examples
use oblireach.Base.{
  ℕ, suc, Bool, true, false, ◌&&◌, Option, none, some, List, [], ◌∷◌, ◌++◌, Bytes, codes, length,
  text_eq, ltb, ◌==◌, if◌then◌else◌, ℤ, update, ◌≡◌, arith,
}
use oblireach.Server.Sessions.{
  Role, viewer, SessionEntry, SessionStore, new_session_store, new_entry, Found, existing, created,
  full, get_or_create, remove, Registration, taken, paired, first, blocked, register,
}

pub record ControlMsg : Type 0 where
  pub type : Bytes
  pub message : Bytes

-- What is written to a WebSocket: a control message, or a relayed frame, as text or as binary.
pub data Outgoing : Type 0 where
  control : ControlMsg → Outgoing
  frame : Bool → Bytes → Outgoing

-- `arrived`: the connection has its entry and has not registered in it.
-- `waiting (some d)`: the private channel of the second peer, which holds its partner `d`;
-- `waiting none`: the first peer waits on the entry's channel. `stuck` is a blocked send in register.
pub data Phase : Type 0 where
  arrived : Phase
  waiting : Option ℕ → Phase
  tunnelling : ℕ → Phase
  closed : Phase
  stuck : Phase

-- One connection with its peer; `send_ch` is the peer's channel, `out` is what was written to the
-- WebSocket. `accepted` is no Go variable: the frames that the inbound pump has passed on so far.
pub record Conn : Type 0 where
  pub role : Role
  pub token : Bytes
  pub entry : ℕ
  pub phase : Phase
  pub send_ch : List Bytes
  pub out : List Outgoing
  pub accepted : List Bytes

pub record Relay : Type 0 where
  pub registry : SessionStore
  pub open registry use *
  pub entries : ℕ → SessionEntry
  pub next_entry : ℕ
  pub conns : ℕ → Conn
  pub next_conn : ℕ

abbrev pub send_cap : ℕ
send_cap = 256

abbrev plain : Bytes → Outgoing
plain type = control (record { type = type; message = [] })

abbrev error : Bytes → Outgoing
error message = control (record { type = codes "error"; message = message })

abbrev pong : Outgoing
pong = plain (codes "pong")

abbrev paired_msg : Outgoing
paired_msg = plain (codes "paired")

abbrev waiting_msg : Outgoing
waiting_msg = plain (codes "waiting")

abbrev pub peer_disconnected : Bytes
peer_disconnected = codes "{\"type\":\"peer_disconnected\"}"

pub new_conn : Role → Bytes → ℕ → Phase → List Outgoing → Conn
new_conn role token entry phase out = record {
  role = role;
  token = token;
  entry = entry;
  phase = phase;
  send_ch = [];
  out = out;
  accepted = [];
}

pub init : ℤ → Relay
unfolding new_conn
init max = record {
  registry = new_session_store max;
  entries = λ _. new_entry [] 0;
  next_entry = 0;
  conns = λ _. new_conn viewer [] 0 closed [];
  next_conn = 0;
}
