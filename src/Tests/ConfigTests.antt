-- ===== src/Tests/ConfigTests.antt =====
-- The configuration.
use nshgeoip.Prelude.{
  if◌then◌else◌, Bytes, codes, to_string, equal, split_first, ◌≡◌, refl, Bool, true, false, ◌||◌,
  none, some, List, [], ◌∷◌, ◌++◌, arith,
}
use nshgeoip.Config.Numerals.{parse_ranged-to_string}
use nshgeoip.Ip.{c_str}
use nshgeoip.Config.Number.{
  trim, scan_digits, strtol, parse_long, parse_ranged, parse_port, parse_bool, negsuc,
}
use nshgeoip.Config.{default_thread_count, default_config, checked, first_branch, set_key, Config}
use nshgeoip.Config.Bounds.{IsValid}
use nshgeoip.Config.Kept.{configure-IsValid}
use nshgeoip.Config.Settings.{env_settings, set_all, outcome, apply_env_overrides_agrees}
use nshgeoip.Config.Written.{write_settings, outcome_of, load_config-settings}
use nshgeoip.Config.Detection.{apply_default_db_paths-IsDetected, IsDetected}
use nshgeoip.Config.File.{
  getlines, load_setting, load_line, load_lines, load_config, loaded, refused,
}
use nshgeoip.Config.Environment.{
  Environment, accepted, env_value, apply_overrides, apply_env_overrides,
}
use nshgeoip.Config.Defaults.{find_candidate, resolve_db_slot, apply_default_db_paths}
use nshgeoip.Config.Startup.{
  geoip_dirs, initial_state, overlay_and_detect, configure, readable, ready,
}

abbrev sample_file : Bytes
sample_file =
    codes "# nshgeoip"
    ++ 10 ∷ codes "  socket_mode = 0600 "
    ++ 10 ∷ 10 ∷ codes "tcp_port=8080"
    ++ 10 ∷ codes "colour = red"
    ++ 10 ∷ codes "debug_log=Yes"
    ++ []

-- NSHGEOIP_THREADS=16, and nothing else.
abbrev sample_env : Environment
sample_env name = if equal name (codes "NSHGEOIP_THREADS") then some (codes " 16") else none

-- Only the second directory has databases, and no country database.
abbrev sample_exists : Bytes → Bool
sample_exists path =
    equal path (codes "/var/lib/crowdsec/data/GeoLite2-City.mmdb")
    || equal path (codes "/var/lib/crowdsec/data/GeoLite2-ASN.mmdb")

abbrev pub sample_config : Config
sample_config = record {
  country_db = [];
  asn_db = codes "/var/lib/crowdsec/data/GeoLite2-ASN.mmdb";
  city_db = codes "/var/lib/crowdsec/data/GeoLite2-City.mmdb";
  socket_path = codes "/run/nshgeoip/nshgeoip.sock";
  socket_mode = 384;
  threads = 16;
  max_request_bytes = 8192;
  debug_log = true;
  tcp_port = 8080;
  tcp_address = [];
  metrics_file = [];
  metrics_interval_seconds = 60;
}

strtol_tests :
    (parse_long 10 (codes " -12") ≡ some (negsuc 11))
    × (parse_long 8 (codes "0789") ≡ none)
    × (parse_long 10 (codes "9223372036854775808") ≡ none)
    × (parse_long 10 (codes "-9223372036854775808") ≡ some (negsuc 9223372036854775807))
    × (parse_long 10 (codes "+") ≡ none)
unfolding parse_long strtol scan_digits c_str
strtol_tests = (refl, refl, refl, refl, refl)

unknown_key_warns :
    load_config (codes "f") (some (codes "# c" ++ 10 ∷ codes "a = b")) (initial_state 0)
    ≡ loaded
        (record (initial_state 0) { warnings = some (codes "f:2: unknown config key 'a'" ∷ []) })
unfolding load_config load_lines load_line load_setting getlines trim split_first set_key
    first_branch equal to_string default_config default_thread_count
unknown_key_warns = refl

missing_equals_sign :
    load_config (codes "f") (some (10 ∷ codes "threads 4")) (initial_state 0)
    ≡ refused (initial_state 0) (codes "f:2: expected key=value")
unfolding load_config load_lines load_line load_setting getlines trim split_first to_string
missing_equals_sign = refl

configure_sample :
    configure sample_exists sample_env 8 (codes "f") false (readable sample_file)
    ≡ ready sample_config
unfolding configure load_config load_lines load_line load_setting getlines trim split_first set_key
    first_branch equal to_string default_config default_thread_count checked parse_ranged parse_long
    strtol scan_digits c_str parse_bool parse_port overlay_and_detect apply_env_overrides
    apply_overrides env_value accepted apply_default_db_paths resolve_db_slot find_candidate
configure_sample = refl

configure-IsValid_example : IsValid sample_config
configure-IsValid_example =
    configure-IsValid sample_exists sample_env 8 (codes "f") false (readable sample_file)
      sample_config configure_sample

apply_default_db_paths-IsDetected_example :
    IsDetected sample_exists
      (default_config 8)
      geoip_dirs
      (apply_default_db_paths sample_exists (default_config 8) geoip_dirs []).0
apply_default_db_paths-IsDetected_example =
    apply_default_db_paths-IsDetected sample_exists (default_config 8) geoip_dirs []

apply_env_overrides_agrees_example :
    outcome (apply_env_overrides sample_env (default_config 8))
    ≡ set_all (env_settings sample_env) (default_config 8)
apply_env_overrides_agrees_example = apply_env_overrides_agrees sample_env (default_config 8)

abbrev sample_settings : List (Bytes × Bytes)
sample_settings =
    (codes "metrics_file", codes "/tmp/a = b")
    ∷ (codes "colour", codes "red")
    ∷ (codes "threads", codes "300")
    ∷ []

load_config-settings_example :
    outcome_of (load_config (codes "f") (some (write_settings sample_settings)) (initial_state 8))
    ≡ set_all sample_settings (default_config 8)
load_config-settings_example = load_config-settings (codes "f") sample_settings (initial_state 8) (
  ((refl, refl), (refl, refl), refl, ground arith, ground arith, ground arith),
  (
    ((refl, refl), (refl, refl), refl, ground arith, ground arith, ground arith),
    (((refl, refl), (refl, refl), refl, ground arith, ground arith, ground arith), tt),
  ),
)

parse_ranged-to_string_example : parse_ranged 10 256 1048576 (to_string 65536) ≡ some 65536
parse_ranged-to_string_example =
    parse_ranged-to_string 256 1048576 65536 (omega arith) (omega arith) (omega arith)
