-- ===== src/Agent/Reconnect.antt =====
-- The agent's command channel: runCmdWS and cmdWSSession of agent/cmd_ws.go, as the sequence of what
-- the ticker and the connection deliver. Times are in nanoseconds.
use oblireach.Base.{
  ℕ, ◌+◌, ◌*◌, ◌/◌, Bool, true, false, Option, none, some, List, [], ◌∷◌, ◌++◌, Bytes, ltb, ◌==◌,
  if◌then◌else◌,
}
mod Examples
pub mod Backoff
pub mod Answers
pub mod Heartbeat

abbrev pub second : ℕ
second = 1000000000

abbrev pub reconnect_base : ℕ
reconnect_base = 2 * second

abbrev pub reconnect_max : ℕ
reconnect_max = 60 * second

abbrev pub read_timeout : ℕ
read_timeout = 60 * second

-- How a session ends: a close frame of the server, or an error.
pub data Ending : Type 0 where
  clean_close : Ending
  failed : Bytes → Ending

-- time.Duration(float64(backoff) * 1.5), which is exact below 2 ^ 52.
pub grow : ℕ → ℕ
grow backoff = backoff * 3 / 2

-- The backoff behind one session, which is also what the agent then sleeps.
pub next_backoff : Ending → ℕ → ℕ
next_backoff clean_close backoff = reconnect_base
next_backoff (failed message) backoff =
    let next = grow backoff in if ltb reconnect_max next then reconnect_max else next

-- The time that the log line announces.
pub announced : Ending → ℕ → ℕ
announced clean_close backoff = reconnect_base
announced (failed message) backoff = backoff

-- The sleeps of a run of sessions.
pub sleeps : ℕ → List Ending → List ℕ
sleeps backoff [] = []
sleeps backoff (e ∷ es) = let b = next_backoff e backoff in b ∷ sleeps b es

-- What reaches the select of cmdWSSession: a tick with the outcome of the heartbeat's write, a frame,
-- or a read error, each at a time.
pub data Arrival : Type 0 where
  tick : Option Bytes → Arrival
  frame : ℕ → Bytes → Arrival
  read_error : Bytes → Arrival

-- What the session does.
pub data Action (Command : Type 0) : Type 0 where
  heartbeat : Action Command
  pong : Bytes → Action Command
  execute : Command → Action Command
  malformed : Action Command

-- The loop's state: the read deadline, what was done, and the ending.
pub record Session (Command : Type 0) : Type 0 where
  pub deadline : ℕ
  pub actions : List (Action Command)
  pub ending : Option Ending

module _ {Command : Type 0} (decode : Bytes → Option Command) where
  handle_text : Bytes → List (Action Command)
  handle_text payload = elim (decode payload) [ none ↦ malformed ∷ [] | some c ↦ execute c ∷ [] ]

  -- The actions and the ending of a frame.
  handle_frame : ℕ → Bytes → List (Action Command) × Option Ending
  handle_frame opcode payload =
      if opcode == 0x8
      then ([], some clean_close)
      else if opcode == 0x9
      then (pong payload ∷ [], none)
      else if opcode == 0x1
      then (handle_text payload, none)
      else ([], none)

  -- One turn of the select on an open session.
  pub receive : ℕ → Arrival → Session Command → Session Command
  receive now (tick none) s = record {
    deadline = s.deadline;
    actions = s.actions ++ (heartbeat ∷ []);
    ending = none;
  }
  receive now (tick (some message)) s = record {
    deadline = s.deadline;
    actions = s.actions;
    ending = some (failed message);
  }
  receive now (read_error message) s = record {
    deadline = s.deadline;
    actions = s.actions;
    ending = some (failed message);
  }
  receive now (frame opcode payload) s =
      let r = handle_frame opcode payload in
      record { deadline = now + read_timeout; actions = s.actions ++ r.0; ending = r.1 }

  -- The session from its first heartbeat on; a session that ended takes nothing.
  pub serve : List (ℕ × Arrival) → Session Command → Session Command
  serve [] s = s
  serve (a ∷ arrivals) s = elim s.ending [ none ↦ serve arrivals (receive a.0 a.1 s) | some e ↦ s ]

  -- A session from the dial on: the errors of the dial, the first heartbeat and the read deadline.
  pub cmd_ws_session :
      Option Bytes → Option Bytes → Option Bytes → ℕ → List (ℕ × Arrival) → Session Command
  cmd_ws_session (some dial) first set now arrivals = record {
    deadline = 0;
    actions = [];
    ending = some (failed dial);
  }
  cmd_ws_session none (some first) set now arrivals = record {
    deadline = 0;
    actions = [];
    ending = some (failed first);
  }
  cmd_ws_session none none (some set) now arrivals = record {
    deadline = 0;
    actions = heartbeat ∷ [];
    ending = some (failed set);
  }
  cmd_ws_session none none none now arrivals =
      serve arrivals
        (record { deadline = now + read_timeout; actions = heartbeat ∷ []; ending = none })
