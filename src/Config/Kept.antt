-- ===== src/Config/Kept.antt =====
-- What reads or overlays a configuration keeps its numbers in their ranges.
use nshgeoip.Prelude.{
  Bool-cases, All, Bytes, codes, is_empty, split_first, ℕ, suc, ◌≡◌, refl, subst, inl, inr, Bool,
  true, false, Option, none, some, List, [], ◌∷◌, ◌++◌,
}
use nshgeoip.Config.Number.{trim, parse_port, parse_ranged_bounds}
use nshgeoip.Config.{Config, Handled, set, invalid, unknown}
use nshgeoip.Config.Bounds.{IsValid, default_config-IsValid, set_key-IsValid, Sets, sets}
use nshgeoip.Config.File.{
  state_of, getlines, after_key, set_pair, load_setting, is_skipped, load_line, load_lines,
  load_config, LoadState, Loaded, loaded, refused,
}
use nshgeoip.Config.Environment.{
  Environment, config_of, accepted, Override, overrides, override_by, env_value, apply_overrides,
  apply_env_overrides, Overlaid, overlaid, rejected,
}
use nshgeoip.Config.Defaults.{resolve_db_slot, apply_default_db_paths}
use nshgeoip.Config.Startup.{
  geoip_dirs, initial_state, overlay_and_detect, after_load, configure, ConfigFile, absent,
  unreadable, readable, Startup, fatal, ready,
}

after_key-IsValid :
    (path : Bytes) (line_no : ℕ) (key : Bytes) (s : LoadState) (h : Handled)
    → IsValid s.cfg
    → Sets h
    → IsValid (state_of (after_key path line_no key s h)).cfg
after_key-IsValid path line_no key s (set cfg) v (sets w) = w
after_key-IsValid path line_no key s (invalid message) v w = v
after_key-IsValid path line_no key s unknown v w = v

set_pair-IsValid :
    (path : Bytes) (line_no : ℕ) (s : LoadState) (o : Option (Bytes × Bytes))
    → IsValid s.cfg
    → IsValid (state_of (set_pair path line_no s o)).cfg
set_pair-IsValid path line_no s none v = v
set_pair-IsValid path line_no s (some (before, behind)) v =
    after_key-IsValid path line_no (trim before) s _ v
      (set_key-IsValid (trim before) (trim behind) s.cfg v)

load_line-IsValid :
    (path : Bytes) (line_no : ℕ) (line : Bytes) (s : LoadState)
    → IsValid s.cfg
    → IsValid (state_of (load_line path line_no line s)).cfg
unfolding load_line load_setting
load_line-IsValid path line_no line s v = elim (Bool-cases (is_skipped (trim line))) [
  | inl e ↦ rw e v
  | inr e ↦ rw e (set_pair-IsValid path line_no s (split_first b'=' (trim line)) v)
]

load_lines-IsValid :
    (path : Bytes) (line_no : ℕ) (lines : List Bytes) (s : LoadState)
    → IsValid s.cfg
    → IsValid (state_of (load_lines path line_no lines s)).cfg
unfolding load_lines
load_lines-IsValid path line_no [] s v = v
load_lines-IsValid path line_no (line ∷ lines) s v =
    go (load_line path (suc line_no) line s) (load_line-IsValid path (suc line_no) line s v)
      (load_lines-IsValid path (suc line_no) lines)
  where
    go :
        (r : Loaded)
        → IsValid (state_of r).cfg
        → ((t : LoadState)
            → IsValid t.cfg
            → IsValid (state_of (load_lines path (suc line_no) lines t)).cfg)
        → IsValid
            (state_of (elim r [
              | loaded t ↦ load_lines path (suc line_no) lines t
              | refused t err ↦ refused t err
            ])).cfg
    go (loaded t) w k = k t w
    go (refused t err) w k = w

-- Whatever the file holds, also when a line of it is refused.
pub load_config-IsValid :
    (path : Bytes) (file : Option Bytes) (s : LoadState)
    → IsValid s.cfg
    → IsValid (state_of (load_config path file s)).cfg
unfolding load_config
load_config-IsValid path none s v = v
load_config-IsValid path (some file) s v = load_lines-IsValid path 0 (getlines file) s v

accepted-IsValid {ℓ} :
    {A : Type ℓ} (cfg : Config) (f : A → Config) (err : Bytes) (o : Option A)
    → IsValid cfg
    → ((a : A) → o ≡ some a → IsValid (f a))
    → IsValid (config_of (accepted cfg f err o))
unfolding accepted
accepted-IsValid cfg f err none v h = v
accepted-IsValid cfg f err (some a) v h = h a refl

abbrev Keeps : Override → Type 0
Keeps o = (cfg : Config) (value : Bytes) → IsValid cfg → IsValid (config_of (o.1 cfg value))

overrides_keep : All Keeps overrides
unfolding parse_port
overrides_keep = (
  (λ cfg value v. v),
  (
    (λ cfg value v. v),
    (
      (λ cfg value v. v),
      (
        (λ cfg value v. v),
        (
          (λ cfg value v.
              accepted-IsValid cfg _ _ _ v
                (λ m e. ((parse_ranged_bounds 8 0 4095 value m e).1, v.1, v.2, v.3, v.4))),
          (
            (λ cfg value v.
                accepted-IsValid cfg _ _ _ v
                  (λ m e. (v.0, parse_ranged_bounds 10 1 256 value m e, v.2, v.3, v.4))),
            (
              (λ cfg value v.
                  accepted-IsValid cfg _ _ _ v
                    (λ m e. (v.0, v.1, parse_ranged_bounds 10 256 1048576 value m e, v.3, v.4))),
              (
                (λ cfg value v. accepted-IsValid cfg _ _ _ v (λ m e. v)),
                (
                  (λ cfg value v.
                      accepted-IsValid cfg _ _ _ v (λ m e.
                        (v.0, v.1, v.2, (parse_ranged_bounds 10 1 65535 value m e).1, v.4))),
                  (
                    (λ cfg value v. v),
                    (
                      (λ cfg value v. v),
                      (
                        (λ cfg value v. accepted-IsValid cfg _ _ _ v (λ m e.
                            (v.0, v.1, v.2, v.3, parse_ranged_bounds 10 1 86400 value m e))),
                        tt,
                      ),
                    ),
                  ),
                ),
              ),
            ),
          ),
        ),
      ),
    ),
  ),
)

module _ (env : Environment) where
  override_by-IsValid :
      (cfg : Config) (f : Config → Bytes → Overlaid) (o : Option Bytes)
      → ((value : Bytes) → IsValid (config_of (f cfg value)))
      → IsValid cfg
      → IsValid (config_of (override_by cfg f o))
  override_by-IsValid cfg f none k v = v
  override_by-IsValid cfg f (some value) k v = k value

  env_value-IsValid :
      (cfg : Config) (o : Override)
      → Keeps o
      → IsValid cfg
      → IsValid (config_of (env_value env cfg o))
  unfolding env_value
  env_value-IsValid cfg (name, f) k v =
      override_by-IsValid cfg f (env name) (λ value. k cfg value v) v

  apply_overrides-IsValid :
      (os : List Override)
      → All Keeps os
      → (cfg : Config) → IsValid cfg
      → IsValid (config_of (apply_overrides env os cfg))
  unfolding apply_overrides
  apply_overrides-IsValid [] h cfg v = v
  apply_overrides-IsValid (o ∷ os) h cfg v =
      go (env_value env cfg o) (env_value-IsValid cfg o h.0 v) (apply_overrides-IsValid os h.1)
    where
      go :
          (r : Overlaid)
          → IsValid (config_of r)
          → ((c : Config) → IsValid c → IsValid (config_of (apply_overrides env os c)))
          → IsValid (
              config_of (elim r [
                | overlaid next_cfg ↦ apply_overrides env os next_cfg
                | rejected last_cfg err ↦ rejected last_cfg err
              ]))
      go (overlaid c) w k = k c w
      go (rejected c err) w k = w

  -- Whatever the environment holds.
  pub apply_env_overrides-IsValid :
      (cfg : Config) → IsValid cfg → IsValid (config_of (apply_env_overrides env cfg))
  unfolding apply_env_overrides
  apply_env_overrides-IsValid cfg v = apply_overrides-IsValid overrides overrides_keep cfg v

module _ (regular_file_exists : Bytes → Bool) where
  apply_default_db_paths-IsValid :
      (cfg : Config) (dirs notes : List Bytes)
      → IsValid cfg
      → IsValid (apply_default_db_paths regular_file_exists cfg dirs notes).0
  unfolding apply_default_db_paths
  apply_default_db_paths-IsValid cfg dirs notes v =
      elim (Bool-cases (
        is_empty
          (resolve_db_slot regular_file_exists cfg.city_db (codes "city_db")
            (codes "GeoLite2-City.mmdb") dirs notes).0)) [ inl e ↦ rw e v | inr e ↦ rw e v ]

  module _ (env : Environment) where
    abbrev IsStartup : Startup → Type 0
    IsStartup (fatal message) = Unit
    IsStartup (ready cfg) = IsValid cfg

    overlay_and_detect-IsStartup :
        (cfg : Config) → IsValid cfg → IsStartup (overlay_and_detect regular_file_exists env cfg)
    unfolding overlay_and_detect
    overlay_and_detect-IsStartup cfg v =
        go (apply_env_overrides env cfg) (apply_env_overrides-IsValid env cfg v)
      where
        go :
            (r : Overlaid)
            → IsValid (config_of r)
            → IsStartup (elim r [
              | rejected c err ↦ fatal (codes "failed to apply environment variables: " ++ err)
              | overlaid c ↦ ready (apply_default_db_paths regular_file_exists c geoip_dirs []).0
            ])
        go (rejected c err) w = tt
        go (overlaid c) w = apply_default_db_paths-IsValid c geoip_dirs [] w

    after_load-IsStartup :
        (r : Loaded) → IsValid (state_of r).cfg → IsStartup (after_load regular_file_exists env r)
    after_load-IsStartup (refused s err) v = tt
    after_load-IsStartup (loaded s) v = overlay_and_detect-IsStartup s.cfg v

    configure-IsStartup :
        (detected : ℕ) (path : Bytes) (explicit : Bool) (file : ConfigFile)
        → IsStartup (configure regular_file_exists env detected path explicit file)
    unfolding configure
    configure-IsStartup detected path true absent = tt
    configure-IsStartup detected path false absent =
        overlay_and_detect-IsStartup _ (default_config-IsValid detected)
    configure-IsStartup detected path explicit unreadable =
        after_load-IsStartup _
          (load_config-IsValid path none (initial_state detected) (default_config-IsValid detected))
    configure-IsStartup detected path explicit (readable file) = after_load-IsStartup _ (
        load_config-IsValid path (some file) (initial_state detected)
          (default_config-IsValid detected))

    -- Whatever the file, the environment, the file system and the number of cores: a configuration
    -- that the server starts with has its mode, its thread count, its request limit, its port and
    -- its interval in the documented ranges.
    pub configure-IsValid :
        (detected : ℕ) (path : Bytes) (explicit : Bool) (file : ConfigFile) (cfg : Config)
        → configure regular_file_exists env detected path explicit file ≡ ready cfg
        → IsValid cfg
    configure-IsValid detected path explicit file cfg e =
        subst IsStartup e (configure-IsStartup detected path explicit file)
