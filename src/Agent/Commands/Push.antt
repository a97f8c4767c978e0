-- ===== src/Agent/Commands/Push.antt =====
-- The pushes to the server: doPush and runPushLoop of agent/push.go. What JSON and HTTP do are
-- parameters, and a reply is `none` where the request fails.
use oblireach.Base.{
  ℕ, ◌≡◌, ◌≢◌, ◌⊎◌, ◌∙◌, inl, inr, refl, arith, Option-cases, Bool-cases, Option, none, some, List,
  [], ◌∷◌, ◌++◌, Bytes, codes, ◌==◌, if◌then◌else◌, Result, ok, err,
}
use oblireach.Agent.LogonSessions.{SessionInfo}
use oblireach.Agent.DeviceUuid.{Config}
use oblireach.Agent.Commands.{Command}

pub record PushPayload : Type 0 where
  pub device_uuid : Bytes
  pub hostname : Bytes
  pub os : Bytes
  pub arch : Bytes
  pub version : Bytes
  pub sessions : List SessionInfo

-- The name of the host, and the constants of the build.
pub record Machine : Type 0 where
  pub hostname : Bytes
  pub os : Bytes
  pub arch : Bytes
  pub version : Bytes

unfoldable pub payload_of : Config → Machine → List SessionInfo → PushPayload
payload_of cfg m sessions = record {
  device_uuid = cfg.device_uuid;
  hostname = m.hostname;
  os = m.os;
  arch = m.arch;
  version = m.version;
  sessions = sessions;
}

pub record Request : Type 0 where
  pub url : Bytes
  pub api_key : Bytes
  pub body : Bytes

pub record Reply : Type 0 where
  pub status : ℕ
  pub body : Option Bytes

pub data PushError : Type 0 where
  no_marshal bad_request no_reply unauthorized unreadable no_unmarshal : PushError
  bad_status : ℕ → PushError

-- One round of the loop: what was there when it was due.
pub record Round : Type 0 where
  pub machine : Machine
  pub sessions : List SessionInfo
  pub reply : Request → Option Reply

module _ (encode : PushPayload → Option Bytes) (valid : Bytes → Option Bytes)
    (decode : Bytes → Option (Option Command)) where
  unfoldable pub read_body : Option Bytes → Result PushError (Option Command)
  read_body none = err unreadable
  read_body (some body) = elim (decode body) [ none ↦ err no_unmarshal | some command ↦ ok command ]

  unfoldable pub read_reply : Option Reply → Result PushError (Option Command)
  read_reply none = err no_reply
  read_reply (some r) =
      if r.status == 401
      then err unauthorized
      else if r.status == 200
      then read_body r.body
      else err (bad_status r.status)

  -- http.NewRequest parses the address.
  unfoldable pub send_request :
      Config → (Request → Option Reply) → Bytes → Result PushError (Option Command)
  send_request cfg reply body = elim (valid (cfg.server_url ++ codes "/api/oblireach/push")) [
    | none ↦ err bad_request
    | some url ↦ read_reply (reply (record { url = url; api_key = cfg.api_key; body = body }))
  ]

  -- doPush, up to the goroutine of the command.
  unfoldable pub do_push : Config → Round → Result PushError (Option Command)
  do_push cfg r = elim (encode (payload_of cfg r.machine r.sessions)) [
    | none ↦ err no_marshal
    | some body ↦ send_request cfg r.reply body
  ]

  -- `if pr.Command != nil { go handleCommand(cfg, pr.Command) }`: the command that a goroutine is
  -- started for.
  unfoldable pub started : Result PushError (Option Command) → List Command
  started (err e) = []
  started (ok none) = []
  started (ok (some c)) = c ∷ []

  -- runPushLoop, for as many rounds: the commands it starts a goroutine for, in the order of the
  -- starts. The goroutines themselves run at any time behind their starts.
  unfoldable pub run_push_loop : Config → List Round → List Command
  run_push_loop cfg [] = []
  run_push_loop cfg (r ∷ rs) = started (do_push cfg r) ++ run_push_loop cfg rs

  -- What the server must have answered in a round for a command to start.
  abbrev pub Handed : Config → Round → Command → Type 0
  Handed cfg r c =
      (body url answer : Bytes) × (encode (payload_of cfg r.machine r.sessions) ≡ some body)
      × (valid (cfg.server_url ++ codes "/api/oblireach/push") ≡ some url)
      × (r.reply (record { url = url; api_key = cfg.api_key; body = body })
          ≡ some (record { status = 200; body = some answer }))
      × (decode answer ≡ some (some c))

  read_body_ok :
      (o : Option Bytes) (c : Command)
      → read_body o ≡ ok (some c)
      → (answer : Bytes) × (o ≡ some answer) × (decode answer ≡ some (some c))
  unfolding read_body
  read_body_ok none c e = absurd (cc)
  read_body_ok (some body) c e = elim (Option-cases (decode body)) [
    | inl bad ↦ absurd (let x : err no_unmarshal ≡ ok (some c) = rw (read_body, bad) at e in cc)
    | inr (o, good) ↦
        (body, refl, let x : ok o ≡ ok (some c) = rw (read_body, good) at e in good ∙ cc)
  ]

  read_reply_ok :
      (o : Option Reply) (c : Command)
      → read_reply o ≡ ok (some c)
      → (answer : Bytes) × (o ≡ some (record { status = 200; body = some answer }))
        × (decode answer ≡ some (some c))
  unfolding read_reply
  read_reply_ok none c e = absurd (cc)
  read_reply_ok (some r) c e = elim (Bool-cases (r.status == 200)) [
    | inl ok_status ↦
        let (answer, full, d) = read_body_ok r.body c (ground arith) in
        let two_hundred : r.status ≡ 200 = ground arith in
        (answer, λ i. some (record { status = two_hundred i; body = full i }), d)
    | inr bad ↦ absurd (ground arith)
  ]

  do_push-Handed :
      (cfg : Config) (r : Round) (c : Command) → do_push cfg r ≡ ok (some c) → Handed cfg r c
  unfolding do_push send_request
  do_push-Handed cfg r c e = elim (Option-cases (encode (payload_of cfg r.machine r.sessions))) [
    | inl bad ↦ absurd (let x : err no_marshal ≡ ok (some c) = rw (do_push, bad) at e in cc)
    | inr (body, encoded) ↦
        elim (Option-cases (valid (cfg.server_url ++ codes "/api/oblireach/push"))) [
          | inl bad ↦ absurd (
              let x : err bad_request ≡ ok (some c) =
                rw (do_push, send_request, encoded, bad) at e in
              cc)
          | inr (url, parsed) ↦
              let (answer, replied, d) =
                read_reply_ok _ c (rw (do_push, send_request, encoded, parsed) at e) in
              (body, url, answer, encoded, parsed, replied, d)
        ]
  ]

  Handed-do_push :
      (cfg : Config) (r : Round) (c : Command) → Handed cfg r c → do_push cfg r ≡ ok (some c)
  unfolding do_push send_request read_reply read_body
  Handed-do_push cfg r c (body, url, answer, e, v, a, d) =
      rw (do_push, send_request, e, v, a) (rw (read_reply, read_body, d) refl)

  -- What a run of rounds may start: one command for a round that hands one out, none for another.
  pub data Pushes (cfg : Config) : List Round → List Command → Type 0 where
    over : Pushes cfg [] []
    handed :
        {r : Round} {c : Command} {rs : List Round} {cs : List Command}
        → Handed cfg r c
        → Pushes cfg rs cs
        → Pushes cfg (r ∷ rs) (c ∷ cs)
    silent :
        {r : Round} {rs : List Round} {cs : List Command}
        → ((c : Command) → ¬ Handed cfg r c)
        → Pushes cfg rs cs
        → Pushes cfg (r ∷ rs) cs

  Result-cases :
      (o : Result PushError (Option Command))
      → ((c : Command) × (o ≡ ok (some c))) ⊎ (((c : Command) → o ≢ ok (some c)) × (started o ≡ []))
  unfolding started
  Result-cases (err e) = inr (λ c h. absurd (cc), refl)
  Result-cases (ok none) = inr (λ c h. absurd (cc), refl)
  Result-cases (ok (some c)) = inl (c, refl)

  -- The push loop starts one command for each round whose answer hands one out, in the order of the
  -- rounds, and nothing else. An answer hands a command out when the payload is encoded, the URL
  -- parses, and the request with the API key is answered with status 200 and a body that is read to
  -- its end and decodes to the command.
  pub run_push_loop-Pushes : (cfg : Config) (rs : List Round) → Pushes cfg rs (run_push_loop cfg rs)
  unfolding run_push_loop started
  run_push_loop-Pushes cfg [] = over
  run_push_loop-Pushes cfg (r ∷ rs) = elim (Result-cases (do_push cfg r)) [
    | inl (c, e) ↦ rw e (handed (do_push-Handed cfg r c e) (run_push_loop-Pushes cfg rs))
    | inr (n, e) ↦
        rw e (silent (λ c h. n c (Handed-do_push cfg r c h)) (run_push_loop-Pushes cfg rs))
  ]
