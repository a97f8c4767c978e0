-- ===== src/Agent/Chats/Examples.antt =====
-- Chats at concrete runs.
use oblireach.Base.{
  ◌≡◌, refl, inr, Bool, true, false, ◌&&◌, Option, none, List, [], ◌∷◌, ◌++◌, Bytes, codes, Table,
  load, store, text_eq, pos, is_empty, arith,
}
use oblireach.Agent.Chats.{
  Json, init, operator_message, no_chats, is_open, Host, respawn_params, send_to, target_of,
  add_chat, start_chat, or_same,
}
use oblireach.Agent.Chats.Events.{
  Event, open_chat, message, close_chat, helper_connected, task_run, connect, step, run,
}
use oblireach.Agent.Chats.Invariant.{Inv}
use oblireach.Agent.Chats.Kept.{run-no_chats-Inv}
use oblireach.Agent.Chats.Messages.{forward_chat_message_respawns}
use oblireach.Agent.Chats.Unread.{Abandoned}
use oblireach.Agent.Chats.Abandoned.{closed_before_connect}
use oblireach.Agent.Chats.Deadline.{relay_windows, chat_send_all, relay_windows_cut}
use oblireach.Agent.Pipe.{put_uint32}

and_false : (b : Bool) → (b && false) ≡ false
and_false true = refl
and_false false = refl

abbrev decode_nothing : Bytes → Option (Table Json)
decode_nothing payload = none

abbrev host : Host
host = record {
  listens = true;
  has_executable = true;
  spawn_code = λ _. 0;
  capture_session = pos 1;
}

abbrev chat_id : Bytes
chat_id = codes "c1"

abbrev opened : List Event
opened = open_chat host chat_id (codes "Ann") [] (pos 2) ∷ []

abbrev talking : List Event
talking = open_chat host chat_id (codes "Ann") [] (pos 2) ∷ helper_connected 0 true ∷ []

run-no_chats-Inv_example : Inv (run decode_nothing talking no_chats)
run-no_chats-Inv_example = run-no_chats-Inv decode_nothing talking

closed_before_connect_example : Abandoned 0 (
    run decode_nothing (message true chat_id [] (codes "hello") (pos 0) ∷ []) (
      run decode_nothing
        (close_chat true chat_id ∷ helper_connected 0 true ∷ [])
        (run decode_nothing opened no_chats)))
unfolding run step no_chats start_chat target_of or_same add_chat load store text_eq
closed_before_connect_example =
    closed_before_connect decode_nothing true true chat_id 0 (run decode_nothing opened no_chats)
      (message true chat_id [] (codes "hello") (pos 0) ∷ [])
      (run-no_chats-Inv decode_nothing opened) refl refl refl

-- The user has closed the window: the pipe is dead, and the next message starts a new helper.
forward_chat_message_respawns_example :
    (run decode_nothing
      (message false chat_id [] (codes "hello") (pos 5)
        ∷ task_run 0 host true
        ∷ helper_connected 1 true
        ∷ task_run 0 host true
        ∷ [])
      (run decode_nothing talking no_chats)).sent
    ≡ (run decode_nothing talking no_chats).sent
      ++ ((1, chat_id, init (codes "Ann") [])
          ∷ (1, chat_id, operator_message (codes "hello") [] (pos 5))
          ∷ [])
unfolding run step no_chats start_chat target_of or_same add_chat load store text_eq connect send_to
    is_open respawn_params is_empty
forward_chat_message_respawns_example =
    forward_chat_message_respawns decode_nothing host false true chat_id [] (codes "hello") (pos 5)
      (run decode_nothing talking no_chats) (run-no_chats-Inv decode_nothing talking)
      (λ n e. and_false _) (refl, refl, refl)

-- The header of a message of two bytes arrives, and the rest only behind the deadline.
relay_windows_cut_example :
    relay_windows
      ((chat_send_all ((0x12, codes "a") ∷ []) ++ (put_uint32 2 ++ (0x10 ∷ []))) ∷ codes "hi" ∷ [])
    ≡ ((0x12, codes "a") ∷ []) ++ relay_windows (codes "hi" ∷ [])
relay_windows_cut_example =
    relay_windows_cut ((0x12, codes "a") ∷ []) (put_uint32 2 ++ (0x10 ∷ [])) (codes "hi" ∷ [])
      (omega arith, tt) (inr (2, 0x10, [], refl, omega arith, omega arith))
