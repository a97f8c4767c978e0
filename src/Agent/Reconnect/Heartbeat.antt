-- ===== src/Agent/Reconnect/Heartbeat.antt =====
-- What the command channel sends and where it connects: cmdWSSend, sendCmdHeartbeat and the address
-- of cmdWSSession, agent/cmd_ws.go.
use oblireach.Base.{
  ℕ, ◌+◌, ◌-◌, ◌/◌, ◌%◌, ◌≡◌, refl, Bool, true, false, ◌&&◌, ◌||◌, Option, none, some, List, [],
  ◌∷◌, ◌++◌, Bytes, codes, strip_prefix, trim_right, ltb, leb, ◌==◌, if◌then◌else◌, Result, ok, err,
  arith,
}
use oblireach.Agent.WebSocket.{write_frame}
use oblireach.Agent.LogonSessions.{SessionInfo}
use oblireach.Agent.DeviceUuid.{Config, is_hex, match_string, uuid_re}
use oblireach.Agent.DeviceUuid.Normal.{IsUuid}

-- url.QueryEscape
unfoldable pub is_unreserved : ℕ → Bool
is_unreserved c =
    (leb b'a' c && leb c b'z')
    || ((leb b'A' c && leb c b'Z')
        || ((leb b'0' c && leb c b'9') || (c == b'-' || (c == b'_' || (c == b'.' || c == b'~')))))

unfoldable pub upper_digit : ℕ → ℕ
upper_digit n = if ltb n 10 then b'0' + n else b'A' + (n - 10)

unfoldable pub escape_byte : ℕ → Bytes
escape_byte c =
    if is_unreserved c
    then c ∷ []
    else if c == b' '
    then b'+' ∷ []
    else b'%' ∷ upper_digit (c / 16) ∷ upper_digit (c % 16) ∷ []

unfoldable pub query_escape : Bytes → Bytes
query_escape [] = []
query_escape (c ∷ s) = escape_byte c ++ query_escape s

-- The switch of cmdWSSession on the scheme.
unfoldable pub plain_base : Bytes → Option Bytes → Bytes
plain_base base none = base
plain_base base (some rest) = codes "ws://" ++ rest

unfoldable pub secure_base : Bytes → Option Bytes → Bytes
secure_base base none = plain_base base (strip_prefix (codes "http://") base)
secure_base base (some rest) = codes "wss://" ++ rest

unfoldable pub ws_base : Bytes → Bytes
ws_base server_url =
    let base = trim_right b'/' server_url in secure_base base (strip_prefix (codes "https://") base)

unfoldable pub ws_url : Config → Bytes
ws_url cfg =
    ws_base cfg.server_url ++ (codes "/api/oblireach/ws?uuid=" ++ query_escape cfg.device_uuid)

pub record HeartbeatMsg : Type 0 where
  pub kind : Bytes
  pub device_uuid : Bytes
  pub hostname : Bytes
  pub os : Bytes
  pub arch : Bytes
  pub version : Bytes
  pub sessions : List SessionInfo

unfoldable pub heartbeat_msg :
    Config → Bytes → Bytes → Bytes → Bytes → List SessionInfo → HeartbeatMsg
heartbeat_msg cfg hostname os arch version sessions = record {
  kind = codes "heartbeat";
  device_uuid = cfg.device_uuid;
  hostname = hostname;
  os = os;
  arch = arch;
  version = version;
  sessions = sessions;
}

pub data SendError : Type 0 where
  not_connected no_marshal write_failed : SendError

-- cmdWSActive: whether there is a connection, and the frames that were written to it.
pub record Channel : Type 0 where
  pub active : Bool
  pub written : List Bytes

-- ws.WriteFrame(0x1, payload) with the mask key that it draws, and whether the write goes through.
unfoldable pub write_text : Bytes → Bool → Bytes → Channel → Result SendError Channel
write_text mask_key delivers payload c =
    if delivers
    then ok (record c { written = c.written ++ (write_frame 0x1 mask_key payload ∷ []) })
    else err write_failed

-- cmdWSSend
unfoldable pub cmd_ws_send : Bytes → Bool → Bytes → Channel → Result SendError Channel
cmd_ws_send mask_key delivers payload c =
    if c.active then write_text mask_key delivers payload c else err not_connected

-- sendCmdHeartbeat
unfoldable pub send_cmd_heartbeat :
    (HeartbeatMsg → Option Bytes) → Bytes → Bool → HeartbeatMsg → Channel → Result SendError Channel
send_cmd_heartbeat encode mask_key delivers m c = elim (encode m) [
  | none ↦ err no_marshal
  | some payload ↦ write_text mask_key delivers payload c
]

escape_byte-id :
    (p : Bool) (c : ℕ) → (if p then is_hex c else c == b'-') ≡ true → escape_byte c ≡ c ∷ []
unfolding escape_byte is_unreserved is_hex
escape_byte-id true c h = ground arith
escape_byte-id false c h = ground arith

query_escape-match_string :
    (ps : List Bool) (s : Bytes) → match_string ps s ≡ true → query_escape s ≡ s
unfolding query_escape match_string
query_escape-match_string [] [] h = refl
query_escape-match_string [] (c ∷ s) h = absurd (cc)
query_escape-match_string (p ∷ ps) [] h = absurd (cc)
query_escape-match_string (p ∷ ps) (c ∷ s) h =
    rw (escape_byte-id p c (ground arith), query_escape-match_string ps s (ground arith)) refl

-- The UUID of the device stands in the address as it is.
pub ws_url-IsUuid :
    (cfg : Config)
    → IsUuid cfg.device_uuid
    → ws_url cfg ≡ ws_base cfg.server_url ++ (codes "/api/oblireach/ws?uuid=" ++ cfg.device_uuid)
unfolding ws_url
ws_url-IsUuid cfg u = rw (query_escape-match_string uuid_re cfg.device_uuid u.form) refl
