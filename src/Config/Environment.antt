-- ===== src/Config/Environment.antt =====
-- src/config.cpp: `apply_env_overrides`. getenv() is a parameter.
use nshgeoip.Prelude.{Bytes, codes, Option, none, some, List, [], ◌∷◌}
use nshgeoip.Config.Number.{parse_ranged, parse_port, parse_bool}
use nshgeoip.Config.{Config}

abbrev pub Environment : Type 0
Environment = Bytes → Option Bytes

-- `return true`, or `return false` with `err`; `cfg` keeps what was written before.
pub data Overlaid : Type 0 where
  overlaid : Config → Overlaid
  rejected : Config → Bytes → Overlaid

abbrev pub config_of : Overlaid → Config
config_of (overlaid cfg) = cfg
config_of (rejected cfg err) = cfg

unfoldable pub accepted {ℓ} : {A : Type ℓ} → Config → (A → Config) → Bytes → Option A → Overlaid
accepted cfg f err none = rejected cfg err
accepted cfg f err (some a) = overlaid (f a)

-- One `if (env_value(name, value))` for each variable, in the order of the source.
abbrev pub Override : Type 0
Override = Bytes × (Config → Bytes → Overlaid)

abbrev pub overrides : List Override
overrides =
    (codes "NSHGEOIP_COUNTRY_DB", λ cfg value. overlaid (record cfg { country_db = value }))
    ∷ (codes "NSHGEOIP_ASN_DB", λ cfg value. overlaid (record cfg { asn_db = value }))
    ∷ (codes "NSHGEOIP_CITY_DB", λ cfg value. overlaid (record cfg { city_db = value }))
    ∷ (codes "NSHGEOIP_SOCKET", λ cfg value. overlaid (record cfg { socket_path = value }))
    ∷ (
      codes "NSHGEOIP_SOCKET_MODE",
      λ cfg value.
          accepted cfg (λ mode. record cfg { socket_mode = mode })
            (codes "NSHGEOIP_SOCKET_MODE: invalid value (expected octal, e.g. 0660)")
            (parse_ranged 8 0 4095 value),
    )
    ∷ (
      codes "NSHGEOIP_THREADS",
      λ cfg value.
          accepted cfg (λ threads. record cfg { threads = threads })
            (codes "NSHGEOIP_THREADS: invalid value (expected 1-256)")
            (parse_ranged 10 1 256 value),
    )
    ∷ (
      codes "NSHGEOIP_MAX_REQUEST_BYTES",
      λ cfg value.
          accepted cfg (λ bytes. record cfg { max_request_bytes = bytes })
            (codes "NSHGEOIP_MAX_REQUEST_BYTES: invalid value (expected 256-1048576)")
            (parse_ranged 10 256 1048576 value),
    )
    ∷ (
      codes "NSHGEOIP_DEBUG_LOG",
      λ cfg value.
          accepted cfg (λ debug. record cfg { debug_log = debug })
            (codes "NSHGEOIP_DEBUG_LOG: invalid value (expected true/false)") (parse_bool value),
    )
    ∷ (
      codes "NSHGEOIP_TCP_PORT",
      λ cfg value.
          accepted cfg (λ port. record cfg { tcp_port = port })
            (codes "NSHGEOIP_TCP_PORT: invalid value (expected 1-65535)") (parse_port value),
    )
    ∷ (codes "NSHGEOIP_TCP_ADDRESS", λ cfg value. overlaid (record cfg { tcp_address = value }))
    ∷ (codes "NSHGEOIP_METRICS_FILE", λ cfg value. overlaid (record cfg { metrics_file = value }))
    ∷ (
      codes "NSHGEOIP_METRICS_INTERVAL_SECONDS",
      λ cfg value.
          accepted cfg (λ interval. record cfg { metrics_interval_seconds = interval })
            (codes "NSHGEOIP_METRICS_INTERVAL_SECONDS: invalid value (expected 1-86400)")
            (parse_ranged 10 1 86400 value),
    )
    ∷ []

abbrev pub override_by : Config → (Config → Bytes → Overlaid) → Option Bytes → Overlaid
override_by cfg f none = overlaid cfg
override_by cfg f (some value) = f cfg value

module _ (env : Environment) where
  unfoldable pub env_value : Config → Override → Overlaid
  env_value cfg (name, f) = override_by cfg f (env name)

  unfoldable pub apply_overrides : List Override → Config → Overlaid
  apply_overrides [] cfg = overlaid cfg
  apply_overrides (o ∷ os) cfg = elim (env_value cfg o) [
    | overlaid next_cfg ↦ apply_overrides os next_cfg
    | rejected last_cfg err ↦ rejected last_cfg err
  ]

  unfoldable pub apply_env_overrides : Config → Overlaid
  apply_env_overrides cfg = apply_overrides overrides cfg
