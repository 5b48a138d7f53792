-- ===== src/Config/Settings.antt =====
-- The environment against the configuration file.
use nshgeoip.Prelude.{
  Bytes, codes, equal, ◌≡◌, refl, ap, ◌∙◌, Bool, true, false, Option, none, some, List, [], ◌∷◌,
}
use nshgeoip.Config.{checked, first_branch, set_key, Config, Handled, set, invalid, unknown}
use mathlib.Core.Path.{fun_ext}
use nshgeoip.Config.Environment.{
  Environment, accepted, Override, overrides, override_by, env_value, apply_overrides,
  apply_env_overrides, Overlaid, overlaid, rejected,
}

-- Each variable with the key of the configuration file that it stands for.
abbrev env_keys : List (Bytes × Bytes)
env_keys =
    (codes "NSHGEOIP_COUNTRY_DB", codes "country_db")
    ∷ (codes "NSHGEOIP_ASN_DB", codes "asn_db")
    ∷ (codes "NSHGEOIP_CITY_DB", codes "city_db")
    ∷ (codes "NSHGEOIP_SOCKET", codes "socket")
    ∷ (codes "NSHGEOIP_SOCKET_MODE", codes "socket_mode")
    ∷ (codes "NSHGEOIP_THREADS", codes "threads")
    ∷ (codes "NSHGEOIP_MAX_REQUEST_BYTES", codes "max_request_bytes")
    ∷ (codes "NSHGEOIP_DEBUG_LOG", codes "debug_log")
    ∷ (codes "NSHGEOIP_TCP_PORT", codes "tcp_port")
    ∷ (codes "NSHGEOIP_TCP_ADDRESS", codes "tcp_address")
    ∷ (codes "NSHGEOIP_METRICS_FILE", codes "metrics_file")
    ∷ (codes "NSHGEOIP_METRICS_INTERVAL_SECONDS", codes "metrics_interval_seconds")
    ∷ []

abbrev add_setting : Bytes → Option Bytes → List (Bytes × Bytes) → List (Bytes × Bytes)
add_setting key none rest = rest
add_setting key (some value) rest = (key, value) ∷ rest

-- The settings of a file that says what the environment says.
abbrev pub settings_of : Environment → List (Bytes × Bytes) → List (Bytes × Bytes)
settings_of env [] = []
settings_of env ((name, key) ∷ rest) = add_setting key (env name) (settings_of env rest)

abbrev pub env_settings : Environment → List (Bytes × Bytes)
env_settings env = settings_of env env_keys

abbrev pub after_set : Config → Handled → (Config → Config × Bool) → Config × Bool
after_set cfg (set c) k = k c
after_set cfg (invalid message) k = (cfg, false)
after_set cfg unknown k = k cfg

-- The branches of `load_config` for these settings in order: the configuration afterwards, and
-- whether all of them were accepted.
unfoldable pub set_all : List (Bytes × Bytes) → Config → Config × Bool
set_all [] cfg = (cfg, true)
set_all ((key, value) ∷ rest) cfg = after_set cfg (set_key key value cfg) (set_all rest)

abbrev after_override : Overlaid → (Config → Config × Bool) → Config × Bool
after_override (overlaid c) k = k c
after_override (rejected c err) k = (c, false)

abbrev pub outcome : Overlaid → Config × Bool
outcome r = after_override r (λ c. (c, true))

-- An override does what the branch of the key does.
abbrev Agree : Override → Bytes × Bytes → Type 0
Agree (name, f) (variable, key) =
    (name ≡ variable)
    × ((cfg : Config) (value : Bytes) (k : Config → Config × Bool)
        → after_override (f cfg value) k ≡ after_set cfg (set_key key value cfg) k)

abbrev AllAgree : List Override → List (Bytes × Bytes) → Type 0
AllAgree [] [] = Unit
AllAgree (o ∷ os) (p ∷ ps) = Agree o p × AllAgree os ps
AllAgree _ _ = ⊥

accepted-checked {ℓ} :
    {A : Type ℓ} (cfg : Config) (f : A → Config) (err message : Bytes) (o : Option A)
    (k : Config → Config × Bool)
    → after_override (accepted cfg f err o) k ≡ after_set cfg (checked o f message) k
unfolding accepted checked
accepted-checked cfg f err message none k = refl
accepted-checked cfg f err message (some a) k = refl

overrides-AllAgree : AllAgree overrides env_keys
unfolding set_key first_branch equal
overrides-AllAgree = (
  (refl, λ cfg value k. refl),
  (
    (refl, λ cfg value k. refl),
    (
      (refl, λ cfg value k. refl),
      (
        (refl, λ cfg value k. refl),
        (
          (refl, λ cfg value k. accepted-checked cfg _ _ _ _ k),
          (
            (refl, λ cfg value k. accepted-checked cfg _ _ _ _ k),
            (
              (refl, λ cfg value k. accepted-checked cfg _ _ _ _ k),
              (
                (refl, λ cfg value k. accepted-checked cfg _ _ _ _ k),
                (
                  (refl, λ cfg value k. accepted-checked cfg _ _ _ _ k),
                  (
                    (refl, λ cfg value k. refl),
                    (
                      (refl, λ cfg value k. refl),
                      ((refl, λ cfg value k. accepted-checked cfg _ _ _ _ k), tt),
                    ),
                  ),
                ),
              ),
            ),
          ),
        ),
      ),
    ),
  ),
)

module _ (env : Environment) where
  apply_overrides_cons :
      (o : Override) (os : List Override) (cfg : Config)
      → outcome (apply_overrides env (o ∷ os) cfg)
        ≡ after_override (env_value env cfg o) (λ c. outcome (apply_overrides env os c))
  unfolding apply_overrides
  apply_overrides_cons o os cfg = go (env_value env cfg o)
    where
      go :
          (r : Overlaid)
          → outcome (elim r [
            | overlaid next_cfg ↦ apply_overrides env os next_cfg
            | rejected last_cfg err ↦ rejected last_cfg err
          ])
            ≡ after_override r (λ c. outcome (apply_overrides env os c))
      go (overlaid c) = refl
      go (rejected c err) = refl

  override-setting :
      (f : Config → Bytes → Overlaid) (key : Bytes) (v : Option Bytes) (rest : List (Bytes × Bytes))
      (cfg : Config)
      → ((value : Bytes)
          → after_override (f cfg value) (set_all rest)
            ≡ after_set cfg (set_key key value cfg) (set_all rest))
      → after_override (override_by cfg f v) (set_all rest) ≡ set_all (add_setting key v rest) cfg
  unfolding set_all
  override-setting f key none rest cfg h = refl
  override-setting f key (some value) rest cfg h = h value

  apply_overrides-settings :
      (os : List Override) (ps : List (Bytes × Bytes))
      → AllAgree os ps
      → (cfg : Config) → outcome (apply_overrides env os cfg) ≡ set_all (settings_of env ps) cfg
  unfolding env_value apply_overrides set_all
  apply_overrides-settings [] [] h cfg = refl
  apply_overrides-settings ((name, f) ∷ os) ((variable, key) ∷ ps) h cfg =
      apply_overrides_cons (name, f) os cfg
      ∙ ap (after_override (env_value env cfg (name, f)))
          (fun_ext (apply_overrides-settings os ps h.1))
      ∙ ap (λ n. after_override (override_by cfg f (env n)) (set_all (settings_of env ps))) h.0.0
      ∙ override-setting f key (env variable) (settings_of env ps) cfg
          (λ value. h.0.1 cfg value (set_all (settings_of env ps)))
  apply_overrides-settings [] (p ∷ ps) h cfg = absurd h
  apply_overrides-settings (o ∷ os) [] h cfg = absurd h

  -- The environment is applied as the branches of `load_config` would apply the settings that it
  -- stands for, one for each variable that is set, in the order of the source: the same
  -- configuration comes out, also when a value is refused, and the same values are refused.
  pub apply_env_overrides_agrees :
      (cfg : Config) → outcome (apply_env_overrides env cfg) ≡ set_all (env_settings env) cfg
  unfolding apply_env_overrides
  apply_env_overrides_agrees cfg =
      apply_overrides-settings overrides env_keys overrides-AllAgree cfg
