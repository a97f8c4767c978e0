-- ===== src/Server/Token/Laws.antt =====
-- What a viewer token proves, and which requests obtain one.
use oblireach.Base.{
  ℕ, ◌==◌, ◌+◌, ◌^◌, ◌≤◌, ◌<◌, ◌≡◌, refl, true, false, Option, none, some, List, [], ◌∷◌, ◌++◌,
  arith, Bytes, codes, length, inl, inr, ◌≢◌, text_eq_iff, text_eq_refl, is_empty, split,
  split_parts-append, split_parts_whole, split_parts_count, split_parts_pos, split_parts_sep,
  split_three_join, split_head, has_byte, has_byte-format_int, ltb, if◌then◌else◌, ℤ, pos, negsuc,
  exceeds, scan_int, format_int, scan_int-format_int, Option-cases, ok, err, is_digit,
}
use oblireach.Server.Token.{
  hex_digit, hex_encode, invalid_format, token_expired, IssueRequest, issued, effective_ttl,
  sign_hmac, signed_part, issue_viewer_token, check_expiry, validate_parts, validate_viewer_token,
  issue_body, handle_issue_token,
}

hex_digit_no_dot : (n : ℕ) → (hex_digit n == b'.') ≡ false
unfolding hex_digit
hex_digit_no_dot n = ground arith

has_byte-hex_encode : (bs : Bytes) → has_byte b'.' (hex_encode bs) ≡ false
unfolding hex_encode has_byte
has_byte-hex_encode [] = refl
has_byte-hex_encode (b ∷ bs) = ground (arith, has_byte-hex_encode bs)

-- The lifetime of a token is from one second to one day.
pub effective_ttl_bounds : (z : ℤ) → (1 ≤ effective_ttl z) × (effective_ttl z ≤ 86400)
unfolding effective_ttl
effective_ttl_bounds (negsuc m) = omega arith
effective_ttl_bounds (pos n) = ground arith

module _ (hmac_sha256 : Bytes → Bytes → Bytes) where
  has_byte-sign_hmac : (s k : Bytes) → has_byte b'.' (sign_hmac hmac_sha256 s k) ≡ false
  unfolding sign_hmac
  has_byte-sign_hmac s k = has_byte-hex_encode (hmac_sha256 k s)

  format_int_no_dot : (n : ℕ) → has_byte b'.' (format_int n) ≡ false
  format_int_no_dot n = has_byte-format_int b'.' n (unfold is_digit in refl)

  -- A token with three parts is cut where it was put together.
  split_three :
      (a b c : Bytes)
      → has_byte b'.' a ≡ false
      → has_byte b'.' b ≡ false
      → has_byte b'.' c ≡ false
      → split b'.' (a ++ (b'.' ∷ (b ++ (b'.' ∷ c)))) ≡ a ∷ b ∷ c ∷ []
  unfolding split
  split_three a b c ha hb hc = rw (
    split_parts-append b'.' a (b ++ (b'.' ∷ c)) ha,
    split_parts-append b'.' b c hb,
    split_parts_whole b'.' c hc,
  )

  check_expiry-format_int :
      (now n : ℕ) (tok : Bytes)
      → n < 2 ^ 63
      → check_expiry hmac_sha256 now tok (format_int n)
        ≡ (if ltb n now then err token_expired else ok tok)
  unfolding check_expiry
  check_expiry-format_int now n tok h = rw (scan_int-format_int n h, check_expiry)

  -- A token for a session token without a dot is accepted by the same secret up to its expiry, and
  -- refused as expired after it; what is returned is the session token.
  pub validate-issue :
      (issue_time now ttl : ℕ) (session_token secret : Bytes)
      → has_byte b'.' session_token ≡ false
      → issue_time + ttl < 2 ^ 63
      → validate_viewer_token hmac_sha256 now
          (issue_viewer_token hmac_sha256 issue_time session_token ttl secret)
          secret
        ≡ (if ltb (issue_time + ttl) now then err token_expired else ok session_token)
  unfolding validate_viewer_token issue_viewer_token validate_parts
  validate-issue issue_time now ttl session_token secret h fits =
      let expire = format_int (issue_time + ttl) in
      let sig = sign_hmac hmac_sha256 (signed_part hmac_sha256 session_token expire) secret in
      rw
        (
          split_three session_token expire sig h (format_int_no_dot _) (has_byte-sign_hmac _ _),
          text_eq_refl sig,
        )
        (check_expiry-format_int now (issue_time + ttl) session_token fits)

  check_expiry_ok :
      (now : ℕ) (tok exp t : Bytes)
      → check_expiry hmac_sha256 now tok exp ≡ ok t
      → (e : ℤ) × (scan_int exp ≡ some e) × (exceeds now e ≡ false) × (tok ≡ t)
  unfolding check_expiry
  check_expiry_ok now tok exp t h = elim (Option-cases (scan_int exp)) [
    | inl e ↦ absurd (ground (arith, e))
    | inr (e, p) ↦ (e, p, ground (arith, p), ground (arith, p))
  ]

  -- What a list of parts has to be for the validator to accept it.
  validate_parts_ok :
      (now : ℕ) (secret t : Bytes) (parts : List Bytes)
      → validate_parts hmac_sha256 now secret parts ≡ ok t
      → (exp : Bytes) × (e : ℤ) × (parts
          ≡ t ∷ exp ∷ sign_hmac hmac_sha256 (signed_part hmac_sha256 t exp) secret ∷ [])
        × (scan_int exp ≡ some e)
        × (exceeds now e ≡ false)
  unfolding validate_parts
  validate_parts_ok now secret t [] h = absurd (cc)
  validate_parts_ok now secret t (a ∷ []) h = absurd (cc)
  validate_parts_ok now secret t (a ∷ b ∷ []) h = absurd (cc)
  validate_parts_ok now secret t (a ∷ b ∷ c ∷ d ∷ r) h = absurd (cc)
  validate_parts_ok now secret t (a ∷ b ∷ c ∷ []) h =
      let (e, p, q, same) = check_expiry_ok now a b t (ground arith) in
      (
        b,
        e,
        ground (
          arith,
          same,
          text_eq_iff (sign_hmac hmac_sha256 (signed_part hmac_sha256 a b) secret) c,
        ),
        p,
        q,
      )

  -- Whoever is let in as a viewer shows a token that is the session token, an expiry that has not
  -- passed and the secret's signature of both, joined by dots; and the session token has no dot.
  pub validate_sound :
      (now : ℕ) (raw secret t : Bytes)
      → validate_viewer_token hmac_sha256 now raw secret ≡ ok t
      → (exp : Bytes) × (e : ℤ) × (raw
          ≡ t
            ++ (b'.'
                ∷ (exp ++ (b'.' ∷ sign_hmac hmac_sha256 (signed_part hmac_sha256 t exp) secret))))
        × (scan_int exp ≡ some e)
        × (exceeds now e ≡ false)
        × (has_byte b'.' t ≡ false)
  unfolding validate_viewer_token split
  validate_sound now raw secret t h =
      let (exp, e, shape, p, q) = validate_parts_ok now secret t (split b'.' raw) h in
      (exp, e, split_three_join b'.' raw t exp _ shape, p, q, split_head b'.' raw t _ shape)

  -- Three parts and no more.
  validate_parts_long :
      (now : ℕ) (secret : Bytes) (parts : List Bytes)
      → 3 < length parts
      → validate_parts hmac_sha256 now secret parts ≡ err invalid_format
  unfolding validate_parts
  validate_parts_long now secret [] h = absurd (omega arith)
  validate_parts_long now secret (a ∷ []) h = absurd (omega arith)
  validate_parts_long now secret (a ∷ b ∷ []) h = absurd (omega arith)
  validate_parts_long now secret (a ∷ b ∷ c ∷ []) h = absurd (omega arith)
  validate_parts_long now secret (a ∷ b ∷ c ∷ d ∷ r) h = refl

  dotted_parts :
      (a b c : Bytes)
      → has_byte b'.' a ≡ true
      → 3 < length (split b'.' (a ++ (b'.' ∷ (b ++ (b'.' ∷ c)))))
  unfolding split
  dotted_parts a b c h = ground (
    arith,
    split_parts_count b'.' a (b'.' ∷ (b ++ (b'.' ∷ c))),
    split_parts_count b'.' b (b'.' ∷ c),
    split_parts_sep b'.' (b ++ (b'.' ∷ c)),
    split_parts_sep b'.' c,
    split_parts_pos b'.' a h,
  )

  -- A session token with a dot in it gets a viewer token that no validator ever accepts, whatever the
  -- time and the secret.
  pub validate-issue_dotted :
      (issue_time now ttl : ℕ) (session_token secret checked : Bytes)
      → has_byte b'.' session_token ≡ true
      → validate_viewer_token hmac_sha256 now
          (issue_viewer_token hmac_sha256 issue_time session_token ttl secret)
          checked
        ≡ err invalid_format
  unfolding validate_viewer_token issue_viewer_token
  validate-issue_dotted issue_time now ttl session_token secret checked h =
      validate_parts_long now checked _ (dotted_parts session_token _ _ h)

  issue_body_issued :
      (now : ℕ) (secret v : Bytes) (body : Option (Bytes × ℤ))
      → issue_body hmac_sha256 now secret body ≡ issued v
      → (session_token : Bytes) × (wanted : ℤ) × (body ≡ some (session_token, wanted))
        × (session_token ≢ [])
        × (v ≡ issue_viewer_token hmac_sha256 now session_token (effective_ttl wanted) secret)
  unfolding issue_body is_empty
  issue_body_issued now secret v none h = absurd (cc)
  issue_body_issued now secret v (some ([], wanted)) h = absurd (cc)
  issue_body_issued now secret v (some (c ∷ s, wanted)) h =
      (c ∷ s, wanted, refl, ground arith, ground arith)

  -- The endpoint mints a token only for a POST with the shared secret whose body names a session;
  -- the token is that session's, with a lifetime between a second and a day.
  pub handle_issue_token_issued :
      (now : ℕ) (secret v : Bytes) (r : IssueRequest)
      → handle_issue_token hmac_sha256 now secret r ≡ issued v
      → (session_token : Bytes) × (wanted : ℤ) × (ttl : ℕ) × (r.secret_header ≡ secret)
        × (r.method ≡ codes "POST")
        × (r.body ≡ some (session_token, wanted))
        × (session_token ≢ [])
        × (1 ≤ ttl)
        × (ttl ≤ 86400)
        × (v ≡ issue_viewer_token hmac_sha256 now session_token ttl secret)
  unfolding handle_issue_token
  handle_issue_token_issued now secret v r h =
      let (session_token, wanted, b, ne, e) =
        issue_body_issued now secret v r.body (ground arith) in
      let (lo, hi) = effective_ttl_bounds wanted in
      (
        session_token,
        wanted,
        effective_ttl wanted,
        ground (arith, text_eq_iff r.secret_header secret),
        ground (arith, text_eq_iff r.method (codes "POST")),
        b,
        ne,
        lo,
        hi,
        e,
      )

  -- What the endpoint mints for a session token without a dot, the relay accepts at that moment.
  pub validate-handle_issue_token :
      (now : ℕ) (secret v session_token : Bytes) (wanted : ℤ) (r : IssueRequest)
      → r.body ≡ some (session_token, wanted)
      → has_byte b'.' session_token ≡ false
      → now + 86400 < 2 ^ 63
      → handle_issue_token hmac_sha256 now secret r ≡ issued v
      → validate_viewer_token hmac_sha256 now v secret ≡ ok session_token
  validate-handle_issue_token now secret v session_token wanted r b h fits e =
      let (tok, w, ttl, _, _, b', _, lo, hi, shape) = handle_issue_token_issued now secret v r e in
      ground (arith, validate-issue now now ttl session_token secret h (omega arith))
