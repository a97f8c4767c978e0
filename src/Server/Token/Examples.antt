-- ===== src/Server/Token/Examples.antt =====
-- A minted token, and the theorems on tokens at concrete inputs.
use oblireach.Base.{
  ◌+◌, ◌≡◌, refl, false, some, ◌∷◌, ◌++◌, arith, Bytes, codes, ltb, if◌then◌else◌, has_byte,
  text_eq, is_empty, ℤ, pos, exceeds, scan_int, ok, err, digits_upto, format_int,
}
use oblireach.Server.Token.{
  hex_encode, sign_hmac, signed_part, token_expired, IssueRequest, issued, effective_ttl,
  issue_viewer_token, validate_viewer_token, handle_issue_token,
}
use oblireach.Server.Token.Laws.{validate-issue, validate_sound}

-- A stand-in for HMAC-SHA256 that is easy to follow: the bytes of the key, then those of the text.
abbrev mac : Bytes → Bytes → Bytes
mac key text = key ++ text

abbrev secret : Bytes
secret = codes "k"

abbrev session : Bytes
session = codes "ab12"

abbrev request : IssueRequest
request = record { secret_header = secret; method = codes "POST"; body = some (session, pos 60) }

minted : issue_viewer_token mac 1000 (codes "ab") 60 secret ≡ codes "ab.1060.6b61622e31303630"
unfolding issue_viewer_token sign_hmac hex_encode format_int digits_upto
minted = refl

validate-issue_example :
    validate_viewer_token mac 1030 (issue_viewer_token mac 1000 session 60 secret) secret
    ≡ (if ltb (1000 + 60) 1030 then err token_expired else ok session)
unfolding has_byte
validate-issue_example = validate-issue mac 1000 1030 60 session secret refl (omega arith)

accepted :
    validate_viewer_token mac 1000 (issue_viewer_token mac 1000 session 60 secret) secret
    ≡ ok session
unfolding has_byte
accepted = validate-issue mac 1000 1000 60 session secret refl (omega arith)

validate_sound_example :
    (exp : Bytes) × (e : ℤ) × (issue_viewer_token mac 1000 session 60 secret
      ≡ session ++ (b'.' ∷ (exp ++ (b'.' ∷ sign_hmac mac (signed_part mac session exp) secret))))
    × (scan_int exp ≡ some e)
    × (exceeds 1000 e ≡ false)
    × (has_byte b'.' session ≡ false)
validate_sound_example =
    validate_sound mac 1000 (issue_viewer_token mac 1000 session 60 secret) secret session accepted

minted_by_endpoint :
    handle_issue_token mac 1000 secret request
    ≡ issued (issue_viewer_token mac 1000 session 60 secret)
unfolding handle_issue_token text_eq is_empty effective_ttl
minted_by_endpoint = refl
