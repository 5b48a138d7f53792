-- ===== src/Tests/MainTests.antt =====
-- The command line and the health check.
use nshgeoip.Prelude.{Bytes, codes, equal, ◌≡◌, refl, true, false, none, some, [], ◌∷◌, arith}
use nshgeoip.Ip.{c_str}
use nshgeoip.Server.Write.{take}
use nshgeoip.Config.Number.{scan_digits, strtol, parse_long, parse_ranged, parse_port}
use nshgeoip.Main.Args.{
  default_socket_path, defaults, flag, missing, store, parse_loop, choose_db_check,
  choose_health_check, needs_health_check, choose, decide, Options, format, refuses, checks_db,
  checks_health, serves,
}
use nshgeoip.Main.Args.Laws.{command_line, parse_loop-command_line, IsAction, decide-IsAction}
use nshgeoip.Main.Health.{
  health_request, judge, exchange, connect_to, open_socket, check_health, healthy, unhealthy,
}
use nshgeoip.Main.Health.Answered.{reached, health_check_passes}
use nshgeoip.Http.ReadHead.{receives}
use nshgeoip.Metrics.{initial_metrics}
use nshgeoip.Server.Connection.{handle_connection, Outcome}
use nshgeoip.Tests.Sample.{sample_ext, sample_context}

decided_tests :
    (decide (codes "--health-check" ∷ codes "--port" ∷ codes "8080" ∷ [])
      ≡ checks_health default_socket_path 8080)
    × (decide (codes "--port" ∷ codes "0" ∷ []) ≡ refuses false (codes "invalid --port value: 0\n"))
    × (decide (codes "--check-db" ∷ codes "--help" ∷ [])
        ≡ checks_db (codes "--help") (codes "table"))
    × (decide (codes "--config" ∷ codes "a" ∷ codes "--config" ∷ codes "b" ∷ [])
        ≡ serves (codes "b") true)
    × (decide (codes "--socket" ∷ codes "s" ∷ [])
        ≡ refuses false (codes "--socket and --port only apply together with --health-check\n"))
    × (decide (codes "--format" ∷ []) ≡ refuses false (missing format))
    × (decide (codes "-v" ∷ codes "--version" ∷ []) ≡ refuses true (codes "unknown argument: -v\n"))
unfolding decide parse_loop flag store choose choose_db_check needs_health_check choose_health_check
    equal parse_port parse_ranged parse_long strtol scan_digits c_str
decided_tests = (refl, refl, refl, refl, refl, refl, refl)

sample_options : Options
sample_options = record {
  config_path = codes "--help";
  config_path_explicit = true;
  check_db_requested = false;
  check_db_path = [];
  check_db_format = codes "--port";
  health_check_requested = true;
  health_check_socket = [];
  health_check_port = 8080;
}

parse_loop-command_line_example :
    parse_loop (command_line sample_options (codes "--version" ∷ [])) none defaults
    ≡ parse_loop (codes "--version" ∷ []) none sample_options
unfolding sample_options
parse_loop-command_line_example =
    parse_loop-command_line sample_options (codes "--version" ∷ [])
      (record { no_config = λ e. cc; no_db = λ e. refl; port_range = omega arith })

decide-IsAction_example :
    IsAction (decide (codes "--health-check" ∷ codes "--port" ∷ codes "8080" ∷ []))
decide-IsAction_example =
    decide-IsAction (codes "--health-check" ∷ codes "--port" ∷ codes "8080" ∷ [])

not_found_is_unhealthy :
    check_health (codes "/s") 0 (reached (codes "HTTP/1.1 404 Not Found\r\nContent-Length"))
    ≡ unhealthy (codes "unexpected response: HTTP/1.1 404 Not Found")
unfolding check_health open_socket connect_to exchange judge
not_found_is_unhealthy = refl

health_check_passes_example :
    (o : Outcome sample_ext) × (w : Bytes) × (handle_connection sample_ext initial_metrics
        sample_context
        (receives health_request ∷ [])
      ≡ some o)
    × (o.written ≡ some w)
    × (check_health (codes "/s") 0 (reached (take 63 w)) ≡ healthy)
health_check_passes_example =
    health_check_passes sample_ext initial_metrics sample_context (codes "/s") 0 63 (omega arith)
      (omega arith) (omega arith)
