-- ===== src/Agent/Streams.antt =====
-- The streams that are running: activeStreams, StreamSession.stop, startStream and stopStream of
-- agent/stream.go. A *StreamSession is its number; `sync.Once` makes the body of stop run once.
use oblireach.Base.{
  ℕ, suc, Bool, true, false, ◌&&◌, ◌||◌, not, Option, none, some, List, [], ◌∷◌, Bytes, Table, load,
  store, delete, update, ltb, ◌==◌, if◌then◌else◌, ℤ, pos, negsuc,
}
pub mod Registry
mod Examples

pub record StreamSession : Type 0 where
  pub token : Bytes
  pub stopped : Bool

pub record Streams : Type 0 where
  pub active : Table ℕ
  pub sessions : ℕ → StreamSession
  pub next : ℕ

pub no_streams : Streams
no_streams = record { active = []; sessions = λ _. record { token = []; stopped = true }; next = 0 }

-- How a stream is captured: by this process, or by a helper in a session.
pub data Route : Type 0 where
  direct : Route
  cross_session : ℕ → Route

-- What startStream asks the platform: whether it is Windows, the sessions of this process and of the
-- console, and the session that findCaptureSession picks.
pub record Platform : Type 0 where
  pub is_windows : Bool
  pub current_session : ℕ
  pub console_session : ℕ
  pub capture_session : ℕ

pub target_session : ℤ → Platform → ℕ
target_session (pos n) o = n
target_session (negsuc n) o = o.capture_session

-- Session 0 has no display: the console's session is taken for it, if there is one.
pub with_display : ℕ → Platform → ℕ
with_display target o =
    if target == 0 && not (o.console_session == 0xFFFFFFFF) then o.console_session else target

pub route_of : ℤ → Platform → Route
route_of session_id o =
    let target = target_session session_id o in
    if o.is_windows && (not (target == o.current_session) || o.current_session == 0)
    then cross_session (with_display target o)
    else direct

-- startStream once its connection is there; `connected` is false when the dial, or the start of the
-- helper, fails.
pub start_stream : Bytes → Bool → Streams → Streams
start_stream token connected s =
    if connected
    then record {
      active = store token s.next s.active;
      sessions = update s.sessions s.next (record { token = token; stopped = false });
      next = suc s.next;
    }
    else s

-- StreamSession.stop
pub stop : ℕ → Streams → Streams
stop n s = if (s.sessions n).stopped then s else record {
  active = delete (s.sessions n).token s.active;
  sessions = update s.sessions n (record { token = (s.sessions n).token; stopped = true });
  next = s.next;
}

pub stop_entry : Option ℕ → Streams → Streams
stop_entry none s = s
stop_entry (some n) s = stop n s

-- stopStream
pub stop_stream : Bytes → Streams → Streams
stop_stream token s = stop_entry (load token s.active) s

-- A stream that ends by itself runs its deferred stop.
pub data Event : Type 0 where
  started : Bytes → Bool → Event
  stop_asked : Bytes → Event
  ended : ℕ → Event

unfoldable pub step : Event → Streams → Streams
step (started token connected) s = start_stream token connected s
step (stop_asked token) s = stop_stream token s
step (ended n) s = stop n s

unfoldable pub run : List Event → Streams → Streams
run [] s = s
run (e ∷ es) s = run es (step e s)
