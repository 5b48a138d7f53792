-- ===== src/Config.antt =====
-- src/config.cpp, src/config.h: the configuration.
pub mod Number
pub mod Bounds
pub mod Kept
pub mod Detection
pub mod Settings
pub mod Written
pub mod Numerals
pub mod File
pub mod Environment
pub mod Defaults
pub mod Startup
use nshgeoip.Prelude.{
  ltb, leb, ◌==◌, if◌then◌else◌, Bytes, codes, equal, ℕ, ◌^◌, Bool, false, ◌||◌, Option, none, some,
  List, [], ◌∷◌,
}
use nshgeoip.Config.Number.{parse_ranged, parse_port, parse_bool}

pub record Config : Type 0 where
  pub country_db : Bytes
  pub asn_db : Bytes
  pub city_db : Bytes
  pub socket_path : Bytes
  pub socket_mode : ℕ
  pub threads : ℕ
  pub max_request_bytes : ℕ
  pub debug_log : Bool
  pub tcp_port : ℕ
  pub tcp_address : Bytes
  pub metrics_file : Bytes
  pub metrics_interval_seconds : ℕ

-- `detected` is what hardware_concurrency() returns; the cast to int makes a value from 2^31 on
-- negative.
unfoldable pub default_thread_count : ℕ → ℕ
default_thread_count detected =
    if detected == 0
    then 8
    else if leb (2 ^ 31) detected || ltb detected 4
    then 4
    else if ltb 20 detected
    then 20
    else detected

-- The default member initialisers; 432 is 0660.
unfoldable pub default_config : ℕ → Config
default_config detected = record {
  country_db = [];
  asn_db = [];
  city_db = [];
  socket_path = codes "/run/nshgeoip/nshgeoip.sock";
  socket_mode = 432;
  threads = default_thread_count detected;
  max_request_bytes = 8192;
  debug_log = false;
  tcp_port = 0;
  tcp_address = [];
  metrics_file = [];
  metrics_interval_seconds = 60;
}

-- What the branch for a key does: it sets a field, refuses the value with a message, or does not
-- know the key.
pub data Handled : Type 0 where
  set : Config → Handled
  invalid : Bytes → Handled
  unknown : Handled

unfoldable pub checked {ℓ} : {A : Type ℓ} → Option A → (A → Config) → Bytes → Handled
checked none f message = invalid message
checked (some a) f message = set (f a)

-- The chain of `else if` in `load_config`: each key with its branch, in the order of the source.
abbrev pub Branch : Type 0
Branch = Bytes × (Config → Bytes → Handled)

abbrev pub branches : List Branch
branches =
    (codes "country_db", λ cfg value. set (record cfg { country_db = value }))
    ∷ (codes "asn_db", λ cfg value. set (record cfg { asn_db = value }))
    ∷ (codes "city_db", λ cfg value. set (record cfg { city_db = value }))
    ∷ (codes "socket", λ cfg value. set (record cfg { socket_path = value }))
    ∷ (
      codes "socket_mode",
      λ cfg value.
          checked (parse_ranged 8 0 4095 value) (λ mode. record cfg { socket_mode = mode })
            (codes "invalid socket_mode (expected octal, e.g. 0660)"),
    )
    ∷ (
      codes "threads",
      λ cfg value.
          checked (parse_ranged 10 1 256 value) (λ threads. record cfg { threads = threads })
            (codes "invalid threads (expected 1-256)"),
    )
    ∷ (
      codes "max_request_bytes",
      λ cfg value.
          checked (parse_ranged 10 256 1048576 value)
            (λ bytes. record cfg { max_request_bytes = bytes })
            (codes "invalid max_request_bytes (expected 256-1048576)"),
    )
    ∷ (
      codes "debug_log",
      λ cfg value.
          checked (parse_bool value) (λ debug. record cfg { debug_log = debug })
            (codes "invalid debug_log (expected true/false)"),
    )
    ∷ (
      codes "tcp_port",
      λ cfg value.
          checked (parse_port value) (λ port. record cfg { tcp_port = port })
            (codes "invalid tcp_port (expected 1-65535)"),
    )
    ∷ (codes "tcp_address", λ cfg value. set (record cfg { tcp_address = value }))
    ∷ (codes "metrics_file", λ cfg value. set (record cfg { metrics_file = value }))
    ∷ (
      codes "metrics_interval_seconds",
      λ cfg value.
          checked (parse_ranged 10 1 86400 value)
            (λ interval. record cfg { metrics_interval_seconds = interval })
            (codes "invalid metrics_interval_seconds (expected 1-86400)"),
    )
    ∷ []

unfoldable pub first_branch : List Branch → Bytes → Bytes → Config → Handled
first_branch [] key value cfg = unknown
first_branch ((name, f) ∷ rest) key value cfg =
    if equal key name then f cfg value else first_branch rest key value cfg

unfoldable pub set_key : Bytes → Bytes → Config → Handled
set_key key value cfg = first_branch branches key value cfg
