-- ===== src/Server/Access/Examples.antt =====
-- The configuration and the admission to a tunnel at concrete inputs.
use oblireach.Base.{
  ◌≡◌, refl, true, Option, some, [], ◌++◌, Bytes, codes, text_eq, is_empty, ok, ◌⊎◌,
}
use oblireach.Server.Sessions.{viewer, agent}
use oblireach.Server.Token.{validate_viewer_token}
use oblireach.Server.Access.{
  Answer, RelayRequest, authorise, admit_agent, validate_agent_session, checked_body,
  authorise_sound,
}

abbrev mac : Bytes → Bytes → Bytes
mac key text = key ++ text

abbrev obliance : Bytes → Bytes → Option Answer
obliance session key = some (record { status = 200; body = some (true, codes "abcdefgh") })

abbrev request : RelayRequest
request = record {
  role = codes "agent";
  token = [];
  session_token = codes "s";
  api_key = codes "k";
}

authorise_sound_example :
    ((agent ≡ viewer) × (validate_viewer_token mac 0 [] (codes "x") ≡ ok (codes "abcdefgh")))
    ⊎ ((agent ≡ agent)
        × (obliance (codes "s") (codes "k")
            ≡ some (record { status = 200; body = some (true, codes "abcdefgh") })))
unfolding authorise admit_agent validate_agent_session checked_body text_eq is_empty
authorise_sound_example =
    authorise_sound mac obliance 0 (codes "x") (codes "abcdefgh") agent request refl
