-- ===== src/Main/Args/Laws.antt =====
-- Command lines that say what the options hold, and what every command line leads to.
use nshgeoip.Prelude.{
  ◌==◌, if◌then◌else◌, Bool-cases, Bytes, codes, is_empty, to_string, equal, ℕ, zero, suc, ◌≤◌, ◌≡◌,
  refl, ap, ◌∙◌, ◌≢◌, inl, inr, Bool, true, false, not, ◌&&◌, Option, none, some, List, [], ◌∷◌,
  ◌++◌, arith,
}
use nshgeoip.Config.Number.{parse_ranged, parse_port, parse_ranged_bounds}
use nshgeoip.Config.Numerals.{parse_ranged-to_string}
use nshgeoip.Main.Args.{
  default_config_path, default_socket_path, defaults, flag, set_port, store, parse_loop, is_format,
  choose_db_check, choose_health_check, needs_health_check, choose, act_on, decide, Options, Valued,
  check_db, format, config, socket, port, Flag, version, help, health_check, unknown, takes, Action,
  prints_version, prints_help, refuses, checks_db, checks_health, Parsed, exits, parsed,
}

abbrev only_if : Bool → List Bytes → List Bytes
only_if true args = args
only_if false args = []

abbrev config_args : Options → List Bytes
config_args o = only_if o.config_path_explicit (codes "--config" ∷ o.config_path ∷ [])

abbrev db_args : Options → List Bytes
db_args o = only_if o.check_db_requested (codes "--check-db" ∷ o.check_db_path ∷ [])

abbrev port_args : ℕ → List Bytes
port_args zero = []
port_args (suc n) = codes "--port" ∷ to_string (suc n) ∷ []

-- The arguments that say what the options hold, in front of others.
unfoldable pub command_line : Options → List Bytes → List Bytes
command_line o rest =
    config_args o
    ++ (db_args o
        ++ (codes "--format"
            ∷ o.check_db_format
            ∷ codes "--socket"
            ∷ o.health_check_socket
            ∷ (only_if o.health_check_requested (codes "--health-check" ∷ [])
                ++ (port_args o.health_check_port ++ rest))))

-- What the parser can bring about.
pub record IsOptions (o : Options) : Type 0 where
  pub no_config : o.config_path_explicit ≡ false → o.config_path ≡ default_config_path
  pub no_db : o.check_db_requested ≡ false → o.check_db_path ≡ []
  pub port_range : o.health_check_port ≤ 65535

parse_config :
    (explicit : Bool) (path : Bytes) (rest : List Bytes) (o : Options)
    → o.config_path_explicit ≡ false
    → (explicit ≡ false → path ≡ o.config_path)
    → parse_loop (only_if explicit (codes "--config" ∷ path ∷ []) ++ rest) none o
      ≡ parse_loop rest none (record o { config_path = path; config_path_explicit = explicit })
unfolding parse_loop flag store equal
parse_config true path rest o e h = refl
parse_config false path rest o e h = rw (h refl, ← e) refl

parse_db :
    (requested : Bool) (path : Bytes) (rest : List Bytes) (o : Options)
    → o.check_db_requested ≡ false
    → (requested ≡ false → path ≡ o.check_db_path)
    → parse_loop (only_if requested (codes "--check-db" ∷ path ∷ []) ++ rest) none o
      ≡ parse_loop rest none (record o { check_db_path = path; check_db_requested = requested })
unfolding parse_loop flag store equal
parse_db true path rest o e h = refl
parse_db false path rest o e h = rw (h refl, ← e) refl

parse_health :
    (requested : Bool) (rest : List Bytes) (o : Options)
    → o.health_check_requested ≡ false
    → parse_loop (only_if requested (codes "--health-check" ∷ []) ++ rest) none o
      ≡ parse_loop rest none (record o { health_check_requested = requested })
unfolding parse_loop flag equal
parse_health true rest o e = refl
parse_health false rest o e = rw (← e) refl

parse_port-to_string : (n : ℕ) → n ≤ 65535 → 1 ≤ n → parse_port (to_string n) ≡ some n
unfolding parse_port
parse_port-to_string n h k = parse_ranged-to_string 1 65535 n k h (omega arith)

parse_port_args :
    (n : ℕ) (rest : List Bytes) (o : Options)
    → o.health_check_port ≡ 0
    → n ≤ 65535
    → parse_loop (port_args n ++ rest) none o
      ≡ parse_loop rest none (record o { health_check_port = n })
unfolding parse_loop flag store equal
parse_port_args zero rest o e h = rw (← e) refl
parse_port_args (suc n) rest o e h =
    ap
      (λ q. elim (set_port (to_string (suc n)) o q) as (λ _. Parsed) [
        | parsed o' ↦ parse_loop rest none o'
        | exits a ↦ exits a
      ])
      (parse_port-to_string (suc n) h (omega arith))

-- The parser gets back all options that can be written down, whatever their values, also values
-- that look like options, and goes on with the arguments behind them.
pub parse_loop-command_line :
    (o : Options) (rest : List Bytes)
    → IsOptions o
    → parse_loop (command_line o rest) none defaults ≡ parse_loop rest none o
unfolding parse_loop command_line flag store equal
parse_loop-command_line o rest v =
    parse_config o.config_path_explicit o.config_path _ defaults refl v.no_config
    ∙ parse_db o.check_db_requested o.check_db_path _ _ refl v.no_db
    ∙ parse_health o.health_check_requested _ _ refl
    ∙ parse_port_args o.health_check_port rest _ refl v.port_range

-- What an action may be: a format that is known, a socket path that is not empty, a port in range.
abbrev pub IsAction : Action → Type 0
IsAction (checks_db path form) = is_format form ≡ true
IsAction (checks_health path n) = (path ≢ []) × (n ≤ 65535)
IsAction _ = Unit

abbrev HasPort : Parsed → Type 0
HasPort (parsed o) = o.health_check_port ≤ 65535
HasPort (exits a) = IsAction a

set_port-HasPort :
    (value : Bytes) (o : Options) (r : Option ℕ)
    → ((n : ℕ) → r ≡ some n → n ≤ 65535)
    → HasPort (set_port value o r)
set_port-HasPort value o none h = tt
set_port-HasPort value o (some n) h = h n refl

store-HasPort :
    (v : Valued) (value : Bytes) (o : Options)
    → o.health_check_port ≤ 65535
    → HasPort (store v value o)
unfolding store parse_port
store-HasPort check_db value o h = h
store-HasPort format value o h = h
store-HasPort config value o h = h
store-HasPort socket value o h = h
store-HasPort port value o h =
    set_port-HasPort value o (parse_ranged 10 1 65535 value)
      (λ n e. (parse_ranged_bounds 10 1 65535 value n e).1)

after_store :
    (rest : List Bytes) (r : Parsed)
    → ((o : Options) → o.health_check_port ≤ 65535 → HasPort (parse_loop rest none o))
    → HasPort r
    → HasPort (elim r as (λ _. Parsed) [ parsed o' ↦ parse_loop rest none o' | exits a ↦ exits a ])
after_store rest (parsed o) k h = k o h
after_store rest (exits a) k h = h

after_flag :
    (arg : Bytes) (rest : List Bytes) (o : Options) (f : Flag)
    → ((v : Option Valued) (o' : Options)
        → o'.health_check_port ≤ 65535
        → HasPort (parse_loop rest v o'))
    → o.health_check_port ≤ 65535
    → HasPort (elim f as (λ _. Parsed) [
      | version ↦ exits prints_version
      | help ↦ exits prints_help
      | health_check ↦ parse_loop rest none (record o { health_check_requested = true })
      | takes v ↦ parse_loop rest (some v) o
      | unknown ↦ exits (refuses true (codes "unknown argument: " ++ arg ++ 10 ∷ []))
    ])
after_flag arg rest o version k h = tt
after_flag arg rest o help k h = tt
after_flag arg rest o health_check k h = k none _ h
after_flag arg rest o (takes v) k h = k (some v) o h
after_flag arg rest o unknown k h = tt

parse_loop-HasPort :
    (argv : List Bytes) (v : Option Valued) (o : Options)
    → o.health_check_port ≤ 65535
    → HasPort (parse_loop argv v o)
unfolding parse_loop
parse_loop-HasPort [] none o h = h
parse_loop-HasPort [] (some v) o h = tt
parse_loop-HasPort (value ∷ rest) (some v) o h =
    after_store rest (store v value o) (parse_loop-HasPort rest none) (store-HasPort v value o h)
parse_loop-HasPort (arg ∷ rest) none o h =
    after_flag arg rest o (flag arg) (parse_loop-HasPort rest) h

socket_or_default-ne-nil : (s : Bytes) → (if is_empty s then default_socket_path else s) ≢ []
socket_or_default-ne-nil [] e = cc
socket_or_default-ne-nil (c ∷ s) e = cc

module _ (o : Options) where
  choose_db : IsAction (choose_db_check o)
  unfolding choose_db_check
  choose_db = elim (Bool-cases (is_format o.check_db_format)) [ inl e ↦ rw e e | inr e ↦ rw e tt ]

  choose_health : o.health_check_port ≤ 65535 → IsAction (choose_health_check o)
  unfolding choose_health_check
  choose_health h =
      elim (Bool-cases (not (is_empty o.health_check_socket) && not (o.health_check_port == 0))) [
        | inl e ↦ rw e tt
        | inr e ↦ rw e (socket_or_default-ne-nil o.health_check_socket, h)
      ]

  choose-IsAction : o.health_check_port ≤ 65535 → IsAction (choose o)
  unfolding choose choose_db_check needs_health_check choose_health_check
  choose-IsAction h = elim (Bool-cases o.check_db_requested) [
    | inl e ↦ rw e choose_db
    | inr e ↦ rw e (elim (Bool-cases (needs_health_check o)) [
      | inl n ↦ rw n tt
      | inr n ↦ rw n (elim (Bool-cases o.health_check_requested) [
        | inl r ↦ rw r (choose_health h)
        | inr r ↦ rw r tt
      ])
    ])
  ]

-- Whatever the arguments: a check of a database has one of the three formats, and a health check
-- has a socket path that is not empty and a port of at most 65535.
pub decide-IsAction : (argv : List Bytes) → IsAction (decide argv)
unfolding decide
decide-IsAction argv =
    go (parse_loop argv none defaults) (parse_loop-HasPort argv none defaults (omega arith))
  where
    go : (r : Parsed) → HasPort r → IsAction (act_on r)
    go (exits a) h = h
    go (parsed o) h = choose-IsAction o h
