-- ===== src/Agent/Reconnect/Examples.antt =====
-- The command channel at concrete inputs.
use oblireach.Base.{ℕ, ◌*◌, ◌≡◌, refl, List, [], ◌∷◌, ◌++◌, Bytes, codes, Option, none, some}
use oblireach.Agent.Reconnect.{
  cmd_ws_session, second, reconnect_base, Ending, clean_close, failed, next_backoff, sleeps, grow,
  Arrival, tick, frame, Session, receive, serve, handle_frame, handle_text,
}
use oblireach.Agent.Reconnect.Answers.{pongs, executed, pings, commands, answers-serve}

abbrev endings : List Ending
endings = failed (codes "EOF") ∷ failed (codes "EOF") ∷ clean_close ∷ failed (codes "EOF") ∷ []

waits : sleeps reconnect_base endings ≡ 3 * second ∷ 4500000000 ∷ 2 * second ∷ 3 * second ∷ []
unfolding sleeps next_backoff grow
waits = refl

-- A command is its text.
abbrev decode : Bytes → Option Bytes
decode s = some s

abbrev arrivals : List (ℕ × Arrival)
arrivals = (1, frame 0x9 (codes "p")) ∷ (2, frame 0x1 (codes "update")) ∷ (3, tick none) ∷ []

abbrev first : Session Bytes
first = record { deadline = 60; actions = []; ending = none }

abbrev with_close : List (ℕ × Arrival)
with_close = (1, frame 0x9 (codes "p")) ∷ (2, frame 0x8 []) ∷ []

answers-serve_example :
    (pongs (serve decode arrivals first).actions ≡ pongs first.actions ++ pings arrivals)
    × (executed (serve decode arrivals first).actions
        ≡ executed first.actions ++ commands decode arrivals)
unfolding serve receive handle_frame handle_text
answers-serve_example = answers-serve decode arrivals first refl

-- A dial that fails, and a session that sends its first heartbeat and is closed.
dial_failed :
    (cmd_ws_session decode (some (codes "refused")) none none 0 arrivals).ending
    ≡ some (failed (codes "refused"))
unfolding cmd_ws_session
dial_failed = refl

closed_cleanly : (cmd_ws_session decode none none none 0 with_close).ending ≡ some clean_close
unfolding cmd_ws_session serve receive handle_frame handle_text
closed_cleanly = refl
