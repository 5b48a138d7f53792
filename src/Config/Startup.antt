-- ===== src/Config/Startup.antt =====
-- src/main.cpp: the configuration part of `main`.
use nshgeoip.Prelude.{if◌then◌else◌, Bytes, codes, ℕ, Bool, none, some, List, [], ◌∷◌, ◌++◌}
use nshgeoip.Config.{default_config, Config}
use nshgeoip.Config.File.{load_config, LoadState, Loaded, loaded, refused}
use nshgeoip.Config.Environment.{Environment, apply_env_overrides, overlaid, rejected}
use nshgeoip.Config.Defaults.{apply_default_db_paths}

-- What access() and the opening of the file say.
pub data ConfigFile : Type 0 where
  absent : ConfigFile
  unreadable : ConfigFile
  readable : Bytes → ConfigFile

-- `return 1` after log_fatal(), or the configuration that the server starts with.
pub data Startup : Type 0 where
  fatal : Bytes → Startup
  ready : Config → Startup

abbrev pub geoip_dirs : List Bytes
geoip_dirs = codes "/var/lib/GeoIP" ∷ codes "/var/lib/crowdsec/data" ∷ []

abbrev pub initial_state : ℕ → LoadState
initial_state detected = record { cfg = default_config detected; warnings = some [] }

module _ (regular_file_exists : Bytes → Bool) (env : Environment) where
  unfoldable pub overlay_and_detect : Config → Startup
  overlay_and_detect cfg = elim (apply_env_overrides env cfg) [
    | rejected c err ↦ fatal (codes "failed to apply environment variables: " ++ err)
    | overlaid c ↦ ready (apply_default_db_paths regular_file_exists c geoip_dirs []).0
  ]

  abbrev pub after_load : Loaded → Startup
  after_load (refused s err) = fatal (codes "failed to load config: " ++ err)
  after_load (loaded s) = overlay_and_detect s.cfg

  unfoldable pub configure : (detected : ℕ) (path : Bytes) (explicit : Bool) → ConfigFile → Startup
  configure detected path explicit absent =
      if explicit
      then fatal (codes "config file not found: " ++ path)
      else overlay_and_detect (default_config detected)
  configure detected path explicit unreadable =
      after_load (load_config path none (initial_state detected))
  configure detected path explicit (readable file) =
      after_load (load_config path (some file) (initial_state detected))
