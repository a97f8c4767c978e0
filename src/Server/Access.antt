-- ===== src/Server/Access.antt =====
-- Who may open a tunnel: validateAgentSession of server/auth.go, and handleRelay of server/relay.go
-- up to the upgrade. The answer of the Obliance server to a session token and an API key is a
-- parameter: `none` when the call fails, else the status and what the body decodes to.
use oblireach.Base.{
  ℕ, Bool, true, false, ◌||◌, ◌&&◌, not, Option, none, some, Bytes, codes, is_empty, text_eq, ◌==◌,
  if◌then◌else◌, Result, ok, err, ◌≡◌, ◌⊎◌, inl, inr, refl, arith, Bool-cases, ==_iff, text_eq_iff,
  [],
}
use oblireach.Server.Sessions.{Role, viewer, agent}
mod Examples
use oblireach.Server.Token.{TokenError, validate_viewer_token}

pub record Answer : Type 0 where
  pub status : ℕ
  -- The fields "valid" and "sessionToken".
  pub body : Option (Bool × Bytes)

pub data AgentError : Type 0 where
  call_failed agent_rejected invalid_response : AgentError

checked_body : Option (Bool × Bytes) → Result AgentError Bytes
checked_body none = err invalid_response
checked_body (some (valid, token)) = if valid then ok token else err invalid_response

pub validate_agent_session :
    (Bytes → Bytes → Option Answer) → Bytes → Bytes → Result AgentError Bytes
validate_agent_session obliance session_token api_key = elim (obliance session_token api_key) [
  | none ↦ err call_failed
  | some a ↦ if a.status == 200 then checked_body a.body else err agent_rejected
]

-- The query and the header that handleRelay reads.
pub record RelayRequest : Type 0 where
  pub role : Bytes
  pub token : Bytes
  pub session_token : Bytes
  pub api_key : Bytes

-- An HTTP error, or the role and the pairing token with which the tunnel goes on.
pub data Access : Type 0 where
  refused : ℕ → Access
  admitted : Role → Bytes → Access

module _ (hmac_sha256 : Bytes → Bytes → Bytes) (obliance : Bytes → Bytes → Option Answer) where
  admit_viewer : ℕ → Bytes → Bytes → Access
  admit_viewer now secret raw =
      if is_empty raw
      then refused 401
      else elim (validate_viewer_token hmac_sha256 now raw secret) [
        | ok token ↦ admitted viewer token
        | err e ↦ refused 401
      ]

  admit_agent : Bytes → Bytes → Access
  admit_agent session_token api_key =
      if is_empty api_key || is_empty session_token
      then refused 401
      else elim (validate_agent_session obliance session_token api_key) [
        | ok token ↦ admitted agent token
        | err e ↦ refused 401
      ]

  pub authorise : ℕ → Bytes → RelayRequest → Access
  authorise now secret r =
      if text_eq r.role (codes "viewer")
      then admit_viewer now secret r.token
      else if text_eq r.role (codes "agent")
      then admit_agent r.session_token r.api_key
      else refused 400

  admit_viewer_sound :
      (now : ℕ) (secret raw token : Bytes) (role : Role)
      → admit_viewer now secret raw ≡ admitted role token
      → (role ≡ viewer) × (validate_viewer_token hmac_sha256 now raw secret ≡ ok token)
  unfolding admit_viewer
  admit_viewer_sound now secret raw token role h = ground arith

  validate_agent_session_sound :
      (session_token api_key token : Bytes)
      → validate_agent_session obliance session_token api_key ≡ ok token
      → obliance session_token api_key ≡ some (record { status = 200; body = some (true, token) })
  unfolding validate_agent_session checked_body
  validate_agent_session_sound session_token api_key token h = ground arith

  admit_agent_sound :
      (session_token api_key token : Bytes) (role : Role)
      → admit_agent session_token api_key ≡ admitted role token
      → (role ≡ agent) × (validate_agent_session obliance session_token api_key ≡ ok token)
  unfolding admit_agent
  admit_agent_sound session_token api_key token role h = ground arith

  -- A tunnel is opened only for a viewer whose token validates to the pairing token, or for an agent
  -- with a session token and an API key to which Obliance answers 200, valid, and the pairing token.
  pub authorise_sound :
      (now : ℕ) (secret token : Bytes) (role : Role) (r : RelayRequest)
      → authorise now secret r ≡ admitted role token
      → ((role ≡ viewer) × (validate_viewer_token hmac_sha256 now r.token secret ≡ ok token))
        ⊎ ((role ≡ agent)
            × (obliance r.session_token r.api_key
                ≡ some (record { status = 200; body = some (true, token) })))
  unfolding authorise
  authorise_sound now secret token role r h =
      let as_viewer = admit_viewer_sound now secret r.token token role in
      let as_agent = admit_agent_sound r.session_token r.api_key token role in
      elim (Bool-cases (text_eq r.role (codes "viewer"))) [
        | inl v ↦ inl (as_viewer (rw v at h))
        | inr not_viewer ↦ elim (Bool-cases (text_eq r.role (codes "agent"))) [
          | inl a ↦
              let got = as_agent (rw (not_viewer, a) at h) in
              inr (got.0, validate_agent_session_sound r.session_token r.api_key token got.1)
          | inr neither ↦ absurd (ground (arith, rw (not_viewer, neither) at h))
        ]
      ]
