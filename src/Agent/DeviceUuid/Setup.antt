-- ===== src/Agent/DeviceUuid/Setup.antt =====
-- The configuration of a start of the agent: setupConfig of agent/main.go.
use oblireach.Base.{
  ℕ, ◌≡◌, ◌⊎◌, inl, inr, ◌∙◌, refl, sym, Bool, true, false, ◌||◌, not, Option, none, some, [], ◌∷◌,
  ◌++◌, Bytes, All, IsByte, is_empty, trim_right, arith, Bool-cases,
}
use mathlib.Core.Path.{subst}
use oblireach.Agent.DeviceUuid.{
  print_uuid, generate_uuid, resolve_device_uuid, Config, first_config, setup_config,
  read_machine_uuid,
}
use oblireach.Agent.DeviceUuid.Format.{array}
use oblireach.Agent.DeviceUuid.Normal.{IsUuid, normalise-generate, read_machine_uuid_cases}

is_empty-append : (s t : Bytes) (c : ℕ) → is_empty (s ++ (c ∷ t)) ≡ false
unfolding is_empty
is_empty-append [] t c = refl
is_empty-append (d ∷ s) t c = refl

generate_uuid_nonempty : (random : Bytes) → is_empty (generate_uuid random) ≡ false
unfolding generate_uuid print_uuid
generate_uuid_nonempty random = is_empty-append _ _ b'-'

resolve_nonempty :
    (machine random stored : Bytes) → is_empty (resolve_device_uuid machine random stored) ≡ false
unfolding resolve_device_uuid
resolve_nonempty machine random stored = ground (arith, generate_uuid_nonempty random)

resolve_again :
    (machine random random' stored : Bytes)
    → resolve_device_uuid machine random' (resolve_device_uuid machine random stored)
      ≡ resolve_device_uuid machine random stored
unfolding resolve_device_uuid
resolve_again machine random random' stored = ground (arith, generate_uuid_nonempty random)

restarted :
    (machine random random' url key : Bytes) (loaded : Option Config) (cfg : Config) (saved : Bool)
    → setup_config machine random url key loaded ≡ some (cfg, saved)
    → (resolve_device_uuid machine random' cfg.device_uuid ≡ cfg.device_uuid)
      × (is_empty cfg.device_uuid ≡ false)
      × (saved ≡ true)
unfolding setup_config first_config
restarted machine random random' url key none cfg saved e =
    elim (Bool-cases (is_empty url || is_empty key)) [
      | inl lacking ↦ absurd (let x : none ≡ some (cfg, saved) = rw lacking at e in cc)
      | inr given ↦
          let x : some (
            record {
              server_url = trim_right b'/' url;
              api_key = key;
              device_uuid = resolve_device_uuid machine random [];
            },
            true,
          )
              ≡ some (cfg, saved) =
            rw given at e in
          let same : cfg.device_uuid ≡ resolve_device_uuid machine random [] = cc in
          let written : saved ≡ true = cc in
          rw same
            (resolve_again machine random random' [], resolve_nonempty machine random [], written)
    ]
restarted machine random random' url key (some old) cfg saved e =
    let same : cfg.device_uuid ≡ resolve_device_uuid machine random old.device_uuid = cc in
    let full = resolve_nonempty machine random old.device_uuid in
    let written : not (is_empty (resolve_device_uuid machine random old.device_uuid)) ≡ saved =
      cc in
    rw same (resolve_again machine random random' old.device_uuid, full, sym written ∙ rw full refl)

-- A start that yields a configuration writes it, and a later start on the same machine that finds
-- it and is given no arguments uses and writes just that configuration, whatever the random numbers
-- are.
pub setup_config_again :
    (machine random random' url key : Bytes) (loaded : Option Config) (cfg : Config) (saved : Bool)
    → setup_config machine random url key loaded ≡ some (cfg, saved)
    → (saved ≡ true) × (setup_config machine random' [] [] (some cfg) ≡ some (cfg, true))
unfolding setup_config is_empty
setup_config_again machine random random' url key loaded cfg saved e =
    let (same, full, written) = restarted machine random random' url key loaded cfg saved e in
    (written, rw (same, full) refl)

resolve_device_uuid-IsUuid :
    (machine random stored : Bytes)
    → (machine ≡ []) ⊎ IsUuid machine
    → (stored ≡ []) ⊎ IsUuid stored
    → IsUuid (generate_uuid random)
    → IsUuid (resolve_device_uuid machine random stored)
unfolding resolve_device_uuid
resolve_device_uuid-IsUuid machine random stored m t g = elim (Bool-cases (is_empty machine)) [
  | inr reported ↦ rw reported (elim m [ inl e ↦ absurd (nonempty machine e reported) | inr u ↦ u ])
  | inl unknown ↦ elim (Bool-cases (is_empty stored)) [
    | inl nothing ↦ rw (unknown, nothing) g
    | inr known ↦
        rw (unknown, known) (elim t [ inl e ↦ absurd (nonempty stored e known) | inr u ↦ u ])
  ]
]
  where
    nonempty : (s : Bytes) → s ≡ [] → is_empty s ≡ false → ⊥
    nonempty s e h = absurd (let x : is_empty [] ≡ false = rw e at h in unfold is_empty in cc)

-- The UUID of what was loaded is proper or missing.
abbrev pub IsSound : Option Config → Type 0
IsSound none = Unit {0}
IsSound (some old) = (old.device_uuid ≡ []) ⊎ IsUuid old.device_uuid

-- On Linux, a start that yields a configuration yields one with a proper UUID: the first start, and a
-- later one that finds a configuration whose UUID is proper or missing.
pub setup_config-IsUuid :
    (machine_id product_uuid : Option Bytes)
    (b0 b1 b2 b3 b4 b5 b6 b7 b8 b9 b10 b11 b12 b13 b14 b15 : ℕ) (url key : Bytes)
    (loaded : Option Config) (cfg : Config) (saved : Bool)
    → All IsByte (array b0 b1 b2 b3 b4 b5 b6 b7 b8 b9 b10 b11 b12 b13 b14 b15)
    → IsSound loaded
    → setup_config
        (read_machine_uuid machine_id product_uuid)
        (array b0 b1 b2 b3 b4 b5 b6 b7 b8 b9 b10 b11 b12 b13 b14 b15)
        url
        key
        loaded
      ≡ some (cfg, saved)
    → IsUuid cfg.device_uuid
unfolding setup_config first_config
setup_config-IsUuid machine_id product_uuid b0 b1 b2 b3 b4 b5 b6 b7 b8 b9 b10 b11 b12 b13 b14 b15
      url key none cfg saved h sound e =
    let random = array b0 b1 b2 b3 b4 b5 b6 b7 b8 b9 b10 b11 b12 b13 b14 b15 in
    let machine = read_machine_uuid machine_id product_uuid in
    elim (Bool-cases (is_empty url || is_empty key)) [
      | inl lacking ↦ absurd (let x : none ≡ some (cfg, saved) = rw lacking at e in cc)
      | inr given ↦
          let x : some (
            record {
              server_url = trim_right b'/' url;
              api_key = key;
              device_uuid = resolve_device_uuid machine random [];
            },
            true,
          )
              ≡ some (cfg, saved) =
            rw given at e in
          let same : resolve_device_uuid machine random [] ≡ cfg.device_uuid = cc in
          subst IsUuid same (
            resolve_device_uuid-IsUuid machine random []
              (read_machine_uuid_cases machine_id product_uuid) (inl refl)
              (normalise-generate b0 b1 b2 b3 b4 b5 b6 b7 b8 b9 b10 b11 b12 b13 b14 b15 h).0)
    ]
setup_config-IsUuid machine_id product_uuid b0 b1 b2 b3 b4 b5 b6 b7 b8 b9 b10 b11 b12 b13 b14 b15
      url key (some old) cfg saved h stored e =
    let random = array b0 b1 b2 b3 b4 b5 b6 b7 b8 b9 b10 b11 b12 b13 b14 b15 in
    let same : resolve_device_uuid (read_machine_uuid machine_id product_uuid) random
          old.device_uuid
        ≡ cfg.device_uuid =
      cc in
    subst IsUuid same (
      resolve_device_uuid-IsUuid _ random old.device_uuid
        (read_machine_uuid_cases machine_id product_uuid) stored
        (normalise-generate b0 b1 b2 b3 b4 b5 b6 b7 b8 b9 b10 b11 b12 b13 b14 b15 h).0)
