-- ===== src/Server/Relay/Examples.antt =====
-- Runs of the relay, and its theorems at concrete inputs.
use oblireach.Base.{
  ℕ, ◌≤◌, ◌≡◌, refl, ◌≢◌, ◌⊎◌, true, none, List, [], ◌∷◌, ◌++◌, Bytes, Option, codes, length, load,
  store, delete, text_eq, pos,
}
use oblireach.Server.Sessions.{
  viewer, agent, opposite, new_session_store, new_entry, get_or_create, register, remove, count,
}
use oblireach.Server.Sessions.Laws.{Within}
use oblireach.Server.Relay.{tunnelling, closed, stuck, init, new_conn, send_cap}
use oblireach.Server.Relay.Steps.{
  Event, joins, registers, receives, inbounds, outbounds, disconnects, run, step, join,
  register_peer, receive, inbound, outbound, disconnect,
}
use oblireach.Server.Relay.Pairing.Safety.{tunnel_partner, run-never_stuck}
use oblireach.Server.Relay.Echo.{relayed}
use oblireach.Server.Relay.Echo.Delivery.{tunnel_echo}
use oblireach.Server.Relay.Limits.{run-limits}
use oblireach.Server.Relay.Lifetime.{stale_disconnect}

-- No frame of the examples is JSON.
abbrev no_json : Bytes → Option Bytes
no_json bytes = none

abbrev token : Bytes
token = codes "0a1b2c3d"

-- A viewer (0) and an agent (1) meet; the viewer sends a frame.
abbrev meeting : List Event
meeting =
    joins viewer token 5
    ∷ registers 0
    ∷ joins agent token 6
    ∷ registers 1
    ∷ receives 1
    ∷ receives 0
    ∷ inbounds 0 true (codes "hi")
    ∷ outbounds 1
    ∷ outbounds 0
    ∷ []

met : ((run no_json (init (pos 10)) meeting).conns 0).phase ≡ tunnelling 1
unfolding run step init new_conn join register_peer receive inbound outbound new_session_store
    new_entry get_or_create register load store text_eq
met = refl

-- The frame comes back to the viewer.
echoed : relayed ((run no_json (init (pos 10)) meeting).conns 0).out ≡ codes "hi" ∷ []
unfolding run step init new_conn join register_peer receive inbound outbound new_session_store
    new_entry get_or_create register load store text_eq
echoed = refl

tunnel_partner_example :
    let s = run no_json (init (pos 10)) meeting in
    ((s.conns 1).token ≡ (s.conns 0).token)
    × ((s.conns 1).role ≡ opposite (s.conns 0).role)
    × ((b : ℕ) → (s.conns 1).phase ≡ tunnelling b → b ≡ 0)
tunnel_partner_example = tunnel_partner no_json (pos 10) meeting 0 1 met

run-never_stuck_example : ((run no_json (init (pos 10)) meeting).conns 1).phase ≢ stuck
run-never_stuck_example = run-never_stuck no_json (pos 10) meeting 1

tunnel_echo_example :
    let s = run no_json (init (pos 10)) meeting in
    relayed (s.conns 0).out ++ (s.conns 1).send_ch ≡ (s.conns 0).accepted
tunnel_echo_example = tunnel_echo no_json (pos 10) meeting 0 1 met

run-limits_example :
    let s = run no_json (init (pos 1)) meeting in
    Within (pos 1) (count s.registry) × ((c : ℕ) → length (s.conns c).send_ch ≤ send_cap)
run-limits_example = run-limits no_json (pos 1) meeting

-- The agent (1) is gone; the viewer comes back as 2 and waits before the tunnel of 0 is torn down.
abbrev comeback : List Event
comeback =
    joins viewer token 5
    ∷ registers 0
    ∷ joins agent token 6
    ∷ registers 1
    ∷ receives 0
    ∷ receives 1
    ∷ disconnects 1
    ∷ joins viewer token 9
    ∷ registers 2
    ∷ []

stale_disconnect_example :
    let s = run no_json (init (pos 10)) comeback in
    let t = join agent (s.conns 2).token 12 (disconnect 0 s) in
    ((t.conns s.next_conn).phase ≡ closed) ⊎ ((t.conns s.next_conn).entry ≢ (s.conns 2).entry)
unfolding run step init new_conn join register_peer receive disconnect new_session_store new_entry
    get_or_create register load store delete text_eq remove
stale_disconnect_example = stale_disconnect no_json (pos 10) comeback 0 1 2 agent 12 refl refl refl
