-- ===== src/Agent/LogonSessions.antt =====
-- The sessions of Windows: wtsStateName, enumerateSessions and findCaptureSession of
-- agent/sessions_windows.go. What the WTS calls report is an argument.
use oblireach.Base.{
  ℕ, ◌+◌, Bool, true, false, ◌&&◌, ◌||◌, not, List, [], ◌∷◌, Bytes, codes, is_empty, text_eq, leb,
  ◌==◌, if◌then◌else◌,
}
pub mod Choice
mod Examples

-- sessionDetail
pub record Detail : Type 0 where
  pub session_id : ℕ
  pub state : ℕ
  pub username : Bytes
  pub station_name : Bytes

pub record SessionInfo : Type 0 where
  pub id : ℕ
  pub username : Bytes
  pub state : Bytes
  pub station_name : Bytes
  pub is_console : Bool

pub wts_state_name : ℕ → Bytes
wts_state_name n =
    if n == 0
    then codes "Active"
    else if n == 1
    then codes "Connected"
    else if n == 2
    then codes "ConnectQuery"
    else if n == 3
    then codes "Shadow"
    else if n == 4
    then codes "Disconnected"
    else if n == 5
    then codes "Idle"
    else if n == 6
    then codes "Listen"
    else codes "Unknown"

-- The three tests that skip a session.
pub is_skipped : Detail → Bool
is_skipped s = leb 6 s.state || (s.session_id == 0 || (is_empty s.username && not (s.state == 0)))

pub info : ℕ → Detail → SessionInfo
info console s = record {
  id = s.session_id;
  username = s.username;
  state = wts_state_name s.state;
  station_name = s.station_name;
  is_console = s.session_id == console;
}

pub listed : ℕ → List Detail → List SessionInfo
listed console [] = []
listed console (s ∷ ss) =
    let rest = listed console ss in if is_skipped s then rest else info console s ∷ rest

-- What the platform reports: whether the enumeration succeeds, its rows, and the sessions of the
-- console and of this process.
pub record Wts : Type 0 where
  pub enumerates : Bool
  pub rows : List Detail
  pub console_session : ℕ
  pub my_session : ℕ

pub enumerate_sessions : Wts → List SessionInfo
enumerate_sessions w = if w.enumerates then listed w.console_session w.rows else []

pub first_active : ℕ → List SessionInfo → ℕ
first_active fallback [] = fallback
first_active fallback (s ∷ ss) =
    let rest = first_active fallback ss in
    if text_eq s.state (codes "Active") && not (is_empty s.username) then s.id else rest

abbrev pub no_console : ℕ
no_console = 0xFFFFFFFF

pub find_capture_session : Wts → ℕ
find_capture_session w =
    if w.console_session == no_console
    then first_active w.my_session (enumerate_sessions w)
    else w.console_session
