-- ===== src/Server/Token.antt =====
-- Viewer tokens: validateViewerToken of server/auth.go; signHMAC, issueViewerToken and
-- handleIssueToken of server/signal.go. HMAC-SHA256 (the key, then the data) is a parameter, and so
-- is the clock.
pub mod Laws
mod Examples
use oblireach.Base.{
  ℕ, ◌+◌, ◌-◌, ◌/◌, ◌%◌, Bool, true, false, Option, none, some, List, [], ◌∷◌, ◌++◌, Bytes, codes,
  text_eq, is_empty, split, ltb, if◌then◌else◌, ℤ, pos, negsuc, exceeds, scan_int, format_int,
  Result, ok, err,
}

-- hex.EncodeToString
unfoldable pub hex_digit : ℕ → ℕ
hex_digit n = if ltb n 10 then b'0' + n else b'a' + (n - 10)

unfoldable pub hex_encode : Bytes → Bytes
unfolding hex_digit
hex_encode [] = []
hex_encode (b ∷ bs) = hex_digit (b / 16) ∷ hex_digit (b % 16) ∷ hex_encode bs

pub data TokenError : Type 0 where
  invalid_format invalid_signature invalid_expiry token_expired : TokenError

-- What `handleIssueToken` reads of a request; `body` is the decoded JSON, `none` if it is malformed.
pub record IssueRequest : Type 0 where
  pub secret_header : Bytes
  pub method : Bytes
  pub body : Option (Bytes × ℤ)

pub data IssueResponse : Type 0 where
  issued : Bytes → IssueResponse
  rejected : ℕ → IssueResponse

-- `if ttl <= 0 || ttl > 86400 { ttl = 3600 }`
pub effective_ttl : ℤ → ℕ
effective_ttl (negsuc m) = 3600
effective_ttl (pos n) = if ltb 0 n then (if ltb 86400 n then 3600 else n) else 3600

module _ (hmac_sha256 : Bytes → Bytes → Bytes) where
  pub sign_hmac : Bytes → Bytes → Bytes
  sign_hmac text secret = hex_encode (hmac_sha256 secret text)

  -- The text that the signature covers.
  abbrev pub signed_part : Bytes → Bytes → Bytes
  signed_part session_token expire = session_token ++ (b'.' ∷ expire)

  -- `now` is `time.Now().Unix()`. The product of the source's Duration overflows above 9223372036
  -- seconds, which its caller excludes: effective_ttl is at most 86400.
  pub issue_viewer_token : ℕ → Bytes → ℕ → Bytes → Bytes
  issue_viewer_token now session_token ttl_seconds secret =
      let expire = format_int (now + ttl_seconds) in
      let signature = sign_hmac (signed_part session_token expire) secret in
      session_token ++ (b'.' ∷ (expire ++ (b'.' ∷ signature)))

  pub check_expiry : ℕ → Bytes → Bytes → Result TokenError Bytes
  check_expiry now session_token expire_str = elim (scan_int expire_str) [
    | none ↦ err invalid_expiry
    | some expire_ts ↦ if exceeds now expire_ts then err token_expired else ok session_token
  ]

  pub validate_parts : ℕ → Bytes → List Bytes → Result TokenError Bytes
  unfolding check_expiry sign_hmac
  validate_parts now secret (session_token ∷ expire_str ∷ sig ∷ []) =
      if text_eq (sign_hmac (signed_part session_token expire_str) secret) sig
      then check_expiry now session_token expire_str
      else err invalid_signature
  validate_parts now secret _ = err invalid_format

  pub validate_viewer_token : ℕ → Bytes → Bytes → Result TokenError Bytes
  validate_viewer_token now raw_token secret = validate_parts now secret (split b'.' raw_token)

  issue_body : ℕ → Bytes → Option (Bytes × ℤ) → IssueResponse
  issue_body now secret none = rejected 400
  issue_body now secret (some (session_token, ttl)) =
      if is_empty session_token
      then rejected 400
      else issued (issue_viewer_token now session_token (effective_ttl ttl) secret)

  pub handle_issue_token : ℕ → Bytes → IssueRequest → IssueResponse
  unfolding issue_body
  handle_issue_token now secret r =
      if text_eq r.secret_header secret
      then (if text_eq r.method (codes "POST") then issue_body now secret r.body else rejected 405)
      else rejected 403
