-- ===== src/Agent/LogonSessions/Examples.antt =====
-- A server without a console session.
use oblireach.Base.{◌≡◌, refl, true, [], ◌∷◌, codes, text_eq, is_empty}
use oblireach.Agent.LogonSessions.{
  Detail, wts_state_name, is_skipped, info, listed, Wts, enumerate_sessions, first_active,
  no_console, find_capture_session,
}
use oblireach.Agent.LogonSessions.Choice.{Found, find_capture_session_headless}

abbrev services : Detail
services = record {
  session_id = 0;
  state = 0;
  username = codes "svc";
  station_name = codes "Services";
}

abbrev left : Detail
left = record { session_id = 2; state = 4; username = codes "bob"; station_name = [] }

abbrev working : Detail
working = record {
  session_id = 3;
  state = 0;
  username = codes "ann";
  station_name = codes "RDP-Tcp#1";
}

abbrev server : Wts
server = record {
  enumerates = true;
  rows = services ∷ left ∷ working ∷ [];
  console_session = no_console;
  my_session = 0;
}

captured : find_capture_session server ≡ 3
unfolding find_capture_session enumerate_sessions listed is_skipped info wts_state_name first_active
    text_eq is_empty
captured = refl

find_capture_session_headless_example :
    Found 0 (services ∷ left ∷ working ∷ []) (find_capture_session server)
find_capture_session_headless_example = find_capture_session_headless server refl refl
