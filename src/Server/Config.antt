-- ===== src/Server/Config.antt =====
-- The relay's configuration: server/config.go. `env` is os.Getenv, which is empty for a variable that
-- is not set.
use oblireach.Base.{
  ℕ, false, Option, none, some, Bytes, codes, is_empty, trim_right, trim_left, atoi, ℤ, pos,
  if◌then◌else◌, ◌≡◌, refl, Bool-cases, inl, inr, arith, [], ◌∷◌, ◌++◌, ◌∙◌, ap, sym,
}
use mathlib.Core.List.{reverse, reverse-append, reverse-reverse}

pub record Config : Type 0 where
  pub addr : Bytes
  pub obliance_url : Bytes
  pub relay_secret : Bytes
  pub max_sessions : ℤ
  pub pair_timeout_sec : ℤ
  pub idle_timeout_sec : ℤ
  pub tls_cert : Bytes
  pub tls_key : Bytes

module _ (env : Bytes → Bytes) where
  pub env_str : Bytes → Bytes → Bytes
  env_str key fallback = if is_empty (env key) then fallback else env key

  pub env_int : Bytes → ℤ → ℤ
  env_int key fallback =
      if is_empty (env key)
      then fallback
      else elim (atoi (env key)) [ none ↦ fallback | some n ↦ n ]

  read_config : Config
  read_config = record {
    addr = env_str (codes "OBLIREACH_ADDR") (codes ":7900");
    obliance_url = env_str (codes "OBLIANCE_URL") (codes "http://localhost:3001");
    relay_secret = env_str (codes "OBLIREACH_SECRET") (codes "change-me-in-production");
    max_sessions = env_int (codes "OBLIREACH_MAX_SESSIONS") (pos 500);
    pair_timeout_sec = env_int (codes "OBLIREACH_PAIR_TIMEOUT") (pos 60);
    idle_timeout_sec = env_int (codes "OBLIREACH_IDLE_TIMEOUT") (pos 3600);
    tls_cert = env_str (codes "OBLIREACH_TLS_CERT") [];
    tls_key = env_str (codes "OBLIREACH_TLS_KEY") [];
  }

  -- log.Fatal is `none`.
  pub load_config : Option Config
  load_config =
      if is_empty read_config.obliance_url
      then none
      else some (record read_config { obliance_url = trim_right b'/' read_config.obliance_url })

  env_str_nonempty :
      (key fallback : Bytes) → is_empty fallback ≡ false → is_empty (env_str key fallback) ≡ false
  unfolding env_str
  env_str_nonempty key fallback h = elim (Bool-cases (is_empty (env key))) [
    | inl unset ↦ rw unset h
    | inr set ↦ rw (set, set) refl
  ]

trim_left_stops : (c : ℕ) (s r : Bytes) → trim_left c s ≡ c ∷ r → ⊥
unfolding trim_left
trim_left_stops c [] r h = cc
trim_left_stops c (a ∷ s) r h = ground (arith, trim_left_stops c s r)

trim_right_stops : (c : ℕ) (s r : Bytes) → trim_right c s ≡ r ++ (c ∷ []) → ⊥
unfolding trim_right
trim_right_stops c s r h =
    trim_left_stops c (reverse s) (reverse r)
      (sym (reverse-reverse _) ∙ (ap reverse h ∙ reverse-append r (c ∷ [])))

-- The check for a missing URL never ends the program: an unset variable has a default. The URL that
-- the relay calls is the variable's or the default, and has no slash at its end.
pub load_config_lem :
    (env : Bytes → Bytes)
    → (c : Config) × ((load_config env ≡ some c)
        × ((c.obliance_url
              ≡ trim_right b'/'
                  (env_str env (codes "OBLIANCE_URL") (codes "http://localhost:3001")))
            × ((r : Bytes) → c.obliance_url ≡ r ++ (b'/' ∷ []) → ⊥)))
unfolding load_config read_config is_empty
load_config_lem env =
    let url = env_str env (codes "OBLIANCE_URL") (codes "http://localhost:3001") in
    let set = env_str_nonempty env (codes "OBLIANCE_URL") (codes "http://localhost:3001") refl in
    (
      record (read_config env) { obliance_url = trim_right b'/' url },
      (rw set refl, (refl, trim_right_stops b'/' url)),
    )

-- A variable that is not a number leaves the default.
sessions_default :
    env_int (λ key. codes "many") (codes "OBLIREACH_MAX_SESSIONS") (pos 500) ≡ pos 500
unfolding env_int atoi is_empty
sessions_default = refl
