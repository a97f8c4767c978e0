-- ===== src/Agent/Commands/Examples.antt =====
-- Commands and pushes at concrete inputs.
use oblireach.Base.{true, none, some, List, [], ◌∷◌, codes, pos}
use oblireach.Agent.DeviceUuid.{Config}
use oblireach.Agent.Chats.{number, text}
use oblireach.Agent.Commands.{Command, fresh_agent, World, handle_command, Agent}
use oblireach.Agent.Commands.Push.{Machine, Round, Pushes, run_push_loop, run_push_loop-Pushes}

abbrev world : World
world = record {
  platform = record {
    is_windows = true;
    current_session = 0;
    console_session = 1;
    capture_session = 1;
  };
  host = record {
    listens = true;
    has_executable = true;
    spawn_code = λ _. 0;
    capture_session = pos 1;
  };
  connects = true;
  delivers = true;
}

-- The token is a number.
abbrev no_token : Command
no_token = record {
  kind = codes "open_remote_tunnel";
  id = codes "1";
  payload = (codes "sessionToken", number (pos 7)) ∷ [];
}

abbrev agent : Agent
agent =
    handle_command (record no_token { payload = (codes "sessionToken", text (codes "t")) ∷ [] })
      world fresh_agent

abbrev config : Config
config = record { device_uuid = codes "u"; api_key = codes "k"; server_url = codes "https://a" }

abbrev machine : Machine
machine = record {
  hostname = codes "h";
  os = codes "linux";
  arch = codes "amd64";
  version = codes "1";
}

-- An answer with a command, one with status 401, and none.
abbrev rounds : List Round
rounds =
    record {
      machine = machine;
      sessions = [];
      reply = λ _. some (record { status = 200; body = some (codes "c") });
    }
    ∷ record {
      machine = machine;
      sessions = [];
      reply = λ _. some (record { status = 401; body = some (codes "c") });
    }
    ∷ record { machine = machine; sessions = []; reply = λ _. none }
    ∷ []

run_push_loop-Pushes_example :
    Pushes
      (λ p. some p.device_uuid)
      some
      (λ _. some (some no_token))
      config
      rounds
      (run_push_loop (λ p. some p.device_uuid) some (λ _. some (some no_token)) config rounds)
run_push_loop-Pushes_example =
    run_push_loop-Pushes (λ p. some p.device_uuid) some (λ _. some (some no_token)) config rounds
