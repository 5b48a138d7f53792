-- ===== src/Tests/LogTests.antt =====
-- The logger and the texts of its lines.
use nshgeoip.Prelude.{codes, to_string, ◌≡◌, refl, true, none, some, [], ◌∷◌, map, arith}
use nshgeoip.Ip.{c_str}
use nshgeoip.Config.File.{getlines}
use nshgeoip.Log.{
  new_logger, set_debug_enabled, level_name, log, debug, info, fatal, to_stdout, to_stderr,
}
use nshgeoip.Log.Lines.{read_line, texts, log-read_line, entry}
use nshgeoip.Geoip.{make_metadata}
use nshgeoip.Config.{default_config, set_key, set}
use nshgeoip.Server.Describe.{mode_octal, describe_db}
use nshgeoip.Server.Describe.Mode.{set_key-mode_octal}
use nshgeoip.Tests.Sample.{sample_ext}

log_tests :
    (log new_logger (codes "T") debug (codes "m") ≡ none)
    × (log (set_debug_enabled true new_logger) (codes "T") debug (codes "m")
        ≡ some (to_stderr, codes "T [DEBUG] m\n"))
    × (log new_logger (codes "T") info (codes "m") ≡ some (to_stdout, codes "T [INFO] m\n"))
unfolding log level_name c_str
log_tests = (refl, refl, refl)

log-read_line_example :
    map read_line (getlines (texts (log new_logger (codes "T") fatal (codes "[m]"))))
    ≡ entry (codes "T ") fatal (codes "[m]") ∷ []
log-read_line_example =
    log-read_line new_logger (codes "T") fatal (codes "[m]") (λ e. cc) (omega arith) (omega arith)
      (omega arith) (omega arith)

describe_tests :
    (mode_octal 432 ≡ codes "0660")
    × (describe_db sample_ext (codes "/a") (some (make_metadata sample_ext 87400 1))
        ≡ codes "/a (GeoLite2, built 1970-01-01T00:16:40Z, 1 days old)")
unfolding mode_octal describe_db make_metadata to_string
describe_tests = (refl, refl)

set_key-mode_octal_example :
    set_key (codes "socket_mode") (mode_octal 432) (default_config 8)
    ≡ set (record (default_config 8) { socket_mode = 432 })
set_key-mode_octal_example = set_key-mode_octal (default_config 8) 432 (omega arith)
