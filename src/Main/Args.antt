-- ===== src/Main/Args.antt =====
-- src/main.cpp: the option parser of `main`, and what it decides to do.
pub mod Laws
use nshgeoip.Prelude.{
  ◌==◌, if◌then◌else◌, Bytes, codes, is_empty, equal, ℕ, Bool, true, false, not, ◌&&◌, ◌||◌, Option,
  none, some, List, [], ◌∷◌, ◌++◌,
}
use nshgeoip.Config.Number.{parse_port}

-- The variables that the loop over `argv` sets.
pub record Options : Type 0 where
  pub config_path : Bytes
  pub config_path_explicit : Bool
  pub check_db_requested : Bool
  pub check_db_path : Bytes
  pub check_db_format : Bytes
  pub health_check_requested : Bool
  pub health_check_socket : Bytes
  pub health_check_port : ℕ

abbrev pub default_config_path : Bytes
default_config_path = codes "/etc/nshgeoip/nshgeoip.conf"

-- `nshgeoip::Config().socket_path`.
abbrev pub default_socket_path : Bytes
default_socket_path = codes "/run/nshgeoip/nshgeoip.sock"

abbrev pub defaults : Options
defaults = record {
  config_path = default_config_path;
  config_path_explicit = false;
  check_db_requested = false;
  check_db_path = [];
  check_db_format = codes "table";
  health_check_requested = false;
  health_check_socket = [];
  health_check_port = 0;
}

-- The options that take the next argument.
pub data Valued : Type 0 where
  check_db format config socket port : Valued

pub data Flag : Type 0 where
  version help health_check unknown : Flag
  takes : Valued → Flag

-- The chain of `if (arg == ...)`.
unfoldable pub flag : Bytes → Flag
flag arg =
    if equal arg (codes "--version")
    then version
    else if equal arg (codes "--help") || equal arg (codes "-h")
    then help
    else if equal arg (codes "--check-db")
    then takes check_db
    else if equal arg (codes "--format")
    then takes format
    else if equal arg (codes "--config")
    then takes config
    else if equal arg (codes "--health-check")
    then health_check
    else if equal arg (codes "--socket")
    then takes socket
    else if equal arg (codes "--port")
    then takes port
    else unknown

-- `i + 1 >= argc`.
abbrev pub missing : Valued → Bytes
missing check_db = codes "--check-db requires a path argument\n"
missing format = codes "--format requires a value (table, json, or ini)\n"
missing config = codes "--config requires a path argument\n"
missing socket = codes "--socket requires a path argument\n"
missing port = codes "--port requires a value\n"

-- What main() does after the loop. `prints_version` and `prints_help` go to stdout with exit
-- status 0; `refuses` writes to stderr and ends with status 2, `shows_help` if the help follows.
pub data Action : Type 0 where
  prints_version : Action
  prints_help : Action
  refuses : (shows_help : Bool) → Bytes → Action
  checks_db : Bytes → Bytes → Action
  checks_health : Bytes → ℕ → Action
  serves : Bytes → Bool → Action

pub data Parsed : Type 0 where
  exits : Action → Parsed
  parsed : Options → Parsed

abbrev pub set_port : Bytes → Options → Option ℕ → Parsed
set_port value o none = exits (refuses false (codes "invalid --port value: " ++ value ++ 10 ∷ []))
set_port value o (some n) = parsed (record o { health_check_port = n })

-- The value of an option.
unfoldable pub store : Valued → Bytes → Options → Parsed
store check_db value o = parsed (record o { check_db_path = value; check_db_requested = true })
store format value o = parsed (record o { check_db_format = value })
store config value o = parsed (record o { config_path = value; config_path_explicit = true })
store socket value o = parsed (record o { health_check_socket = value })
store port value o = set_port value o (parse_port value)

-- The loop; an option is pending while it waits for its value.
unfoldable pub parse_loop : List Bytes → Option Valued → Options → Parsed
parse_loop [] none o = parsed o
parse_loop [] (some v) o = exits (refuses false (missing v))
parse_loop (value ∷ rest) (some v) o = elim (store v value o) [
  | parsed o' ↦ parse_loop rest none o'
  | exits a ↦ exits a
]
parse_loop (arg ∷ rest) none o = elim (flag arg) [
  | version ↦ exits prints_version
  | help ↦ exits prints_help
  | health_check ↦ parse_loop rest none (record o { health_check_requested = true })
  | takes v ↦ parse_loop rest (some v) o
  | unknown ↦ exits (refuses true (codes "unknown argument: " ++ arg ++ 10 ∷ []))
]

abbrev pub is_format : Bytes → Bool
is_format s = equal s (codes "table") || equal s (codes "json") || equal s (codes "ini")

unfoldable pub choose_db_check : Options → Action
choose_db_check o =
    if is_format o.check_db_format
    then checks_db o.check_db_path o.check_db_format
    else refuses false (
        codes "unknown --format value: "
        ++ o.check_db_format
        ++ codes " (expected table, json, or ini)\n")

unfoldable pub choose_health_check : Options → Action
choose_health_check o =
    if not (is_empty o.health_check_socket) && not (o.health_check_port == 0)
    then refuses false (codes "--socket and --port are mutually exclusive\n")
    else checks_health
        (if is_empty o.health_check_socket then default_socket_path else o.health_check_socket)
        o.health_check_port

unfoldable pub needs_health_check : Options → Bool
needs_health_check o =
    not o.health_check_requested
    && (not (is_empty o.health_check_socket) || not (o.health_check_port == 0))

-- Behind the loop.
unfoldable pub choose : Options → Action
choose o =
    if o.check_db_requested
    then choose_db_check o
    else if needs_health_check o
    then refuses false (codes "--socket and --port only apply together with --health-check\n")
    else if o.health_check_requested
    then choose_health_check o
    else serves o.config_path o.config_path_explicit

abbrev pub act_on : Parsed → Action
act_on (exits a) = a
act_on (parsed o) = choose o

-- `argv` without the program's name.
unfoldable pub decide : List Bytes → Action
decide argv = act_on (parse_loop argv none defaults)
