-- ===== src/Metrics/Render.antt =====
-- src/metrics.cpp: the bodies of /metrics and of the JSON form of /health.
use nshgeoip.Prelude.{
  ◌==◌, if◌then◌else◌, Bytes, codes, streamed, to_string, ℕ, Bool, Option, none, some, List, [],
  ◌∷◌, ◌++◌,
}
use nshgeoip.External.{External}
use nshgeoip.Text.{json_escape}
use nshgeoip.Geoip.{GeoIpDbMetadata}
use nshgeoip.Metrics.{Metrics}

pub record MetricsDbInfo (Double : Type 0) : Type 0 where
  pub name : Bytes
  pub open_now : Bool
  pub metadata : Option (GeoIpDbMetadata Double)

unfoldable pub escape_label_byte : ℕ → Bytes
escape_label_byte c =
    if c == b'\\'
    then b'\\' ∷ b'\\' ∷ []
    else if c == b'"'
    then b'\\' ∷ b'"' ∷ []
    else if c == 10
    then b'\\' ∷ b'n' ∷ []
    else c ∷ []

unfoldable pub escape_label_value : Bytes → Bytes
unfolding escape_label_byte
escape_label_value [] = []
escape_label_value (c ∷ cs) = escape_label_byte c ++ escape_label_value cs

-- One sample: the name with its label, the value and the end of the line.
abbrev sample : Bytes → Bytes → Bytes → Bytes
sample series value rest = streamed (series ∷ value ∷ codes "\n" ∷ rest ∷ [])

-- `name{db="<name>"} `.
abbrev db_series : Bytes → Bytes → Bytes
db_series metric name =
    streamed (metric ∷ codes "{db=\"" ∷ escape_label_value name ∷ codes "\"} " ∷ [])

module _ (ext : External) where
  open ext use {Double, fixed, multiply, number}

  -- The three loops over the databases; the last two skip one without metadata.
  unfoldable pub open_samples : List (MetricsDbInfo Double) → Bytes
  open_samples [] = []
  open_samples (db ∷ dbs) =
      sample (db_series (codes "nshgeoip_db_open") db.name)
        (if db.open_now then codes "1" else codes "0") (open_samples dbs)

  abbrev epoch_sample : Bytes → Option (GeoIpDbMetadata Double) → Bytes → Bytes
  epoch_sample name none rest = rest
  epoch_sample name (some meta) rest =
      sample (db_series (codes "nshgeoip_db_build_epoch_seconds") name) (to_string meta.build_epoch)
        rest

  unfoldable pub epoch_samples : List (MetricsDbInfo Double) → Bytes
  epoch_samples [] = []
  epoch_samples (db ∷ dbs) = epoch_sample db.name db.metadata (epoch_samples dbs)

  abbrev age_sample : Bytes → Option (GeoIpDbMetadata Double) → Bytes → Bytes
  age_sample name none rest = rest
  age_sample name (some meta) rest =
      sample (db_series (codes "nshgeoip_db_age_seconds") name)
        (fixed 0 (multiply meta.age_days (number 86400))) rest

  unfoldable pub age_samples : List (MetricsDbInfo Double) → Bytes
  age_samples [] = []
  age_samples (db ∷ dbs) = age_sample db.name db.metadata (age_samples dbs)

  unfoldable pub render_prometheus_metrics :
      Metrics → List (MetricsDbInfo Double) → Bytes → Bytes → Double → Bytes
  unfolding open_samples epoch_samples age_samples
  render_prometheus_metrics m dbs version mmdb_lib_version uptime_seconds = streamed (
      codes "# HELP nshgeoip_build_info nshgeoip build information.\n"
      ∷ codes "# TYPE nshgeoip_build_info gauge\n"
      ∷ codes "nshgeoip_build_info{version=\""
      ∷ escape_label_value version
      ∷ codes "\",libmaxminddb_version=\""
      ∷ escape_label_value mmdb_lib_version
      ∷ codes "\"} 1\n"
      ∷ codes "# HELP nshgeoip_uptime_seconds Seconds since the daemon started.\n"
      ∷ codes "# TYPE nshgeoip_uptime_seconds gauge\n"
      ∷ sample (codes "nshgeoip_uptime_seconds ") (fixed 0 uptime_seconds) []
      ∷ codes "# HELP nshgeoip_db_open Whether a database is currently open (1) or not (0).\n"
      ∷ codes "# TYPE nshgeoip_db_open gauge\n"
      ∷ open_samples dbs
      ∷ codes "# HELP nshgeoip_db_build_epoch_seconds Database build time as a Unix timestamp.\n"
      ∷ codes "# TYPE nshgeoip_db_build_epoch_seconds gauge\n"
      ∷ epoch_samples dbs
      ∷ codes "# HELP nshgeoip_db_age_seconds Seconds since the database was built.\n"
      ∷ codes "# TYPE nshgeoip_db_age_seconds gauge\n"
      ∷ age_samples dbs
      ∷ codes "# HELP nshgeoip_requests_total Total HTTP requests received, by path.\n"
      ∷ codes "# TYPE nshgeoip_requests_total counter\n"
      ∷ sample (codes "nshgeoip_requests_total{path=\"lookup\"} ")
          (to_string m.lookup_requests_total) []
      ∷ sample (codes "nshgeoip_requests_total{path=\"health\"} ")
          (to_string m.health_requests_total) []
      ∷ sample (codes "nshgeoip_requests_total{path=\"metrics\"} ")
          (to_string m.metrics_requests_total) []
      ∷ sample (codes "nshgeoip_requests_total{path=\"other\"} ") (to_string m.other_requests_total)
          []
      ∷ codes "# HELP nshgeoip_http_responses_total HTTP responses sent, by status code.\n"
      ∷ codes "# TYPE nshgeoip_http_responses_total counter\n"
      ∷ sample (codes "nshgeoip_http_responses_total{code=\"200\"} ") (to_string m.responses_200) []
      ∷ sample (codes "nshgeoip_http_responses_total{code=\"400\"} ") (to_string m.responses_400) []
      ∷ sample (codes "nshgeoip_http_responses_total{code=\"404\"} ") (to_string m.responses_404) []
      ∷ sample (codes "nshgeoip_http_responses_total{code=\"405\"} ") (to_string m.responses_405) []
      ∷ sample (codes "nshgeoip_http_responses_total{code=\"500\"} ") (to_string m.responses_500) []
      ∷ codes "# HELP nshgeoip_lookup_results_total /lookup outcomes, by result.\n"
      ∷ codes "# TYPE nshgeoip_lookup_results_total counter\n"
      ∷ sample (codes "nshgeoip_lookup_results_total{result=\"found\"} ")
          (to_string m.lookup_found_total) []
      ∷ sample (codes "nshgeoip_lookup_results_total{result=\"not_found\"} ")
          (to_string m.lookup_not_found_total) []
      ∷ [])

  abbrev health_metadata : Option (GeoIpDbMetadata Double) → Bytes
  health_metadata none = []
  health_metadata (some meta) = streamed (
      codes ",\"database_type\":\""
      ∷ json_escape meta.database_type
      ∷ codes "\",\"build_epoch\":"
      ∷ to_string meta.build_epoch
      ∷ codes ",\"build_date\":\""
      ∷ json_escape meta.build_time
      ∷ codes "\",\"age_days\":"
      ∷ fixed 1 meta.age_days
      ∷ codes ",\"age_ms\":"
      ∷ to_string meta.age_ms
      ∷ codes ",\"age_ns\":"
      ∷ to_string meta.age_ns
      ∷ [])

  abbrev health_db : MetricsDbInfo Double → Bytes
  health_db db = streamed (
      codes "\""
      ∷ json_escape db.name
      ∷ codes "\":{\"open\":"
      ∷ (if db.open_now then codes "true" else codes "false")
      ∷ health_metadata db.metadata
      ∷ codes "}"
      ∷ [])

  -- The loop from its second round on puts a comma in front.
  unfoldable pub health_more : List (MetricsDbInfo Double) → Bytes
  health_more [] = []
  health_more (db ∷ dbs) = streamed (codes "," ∷ health_db db ∷ health_more dbs ∷ [])

  unfoldable pub health_dbs : List (MetricsDbInfo Double) → Bytes
  unfolding health_more
  health_dbs [] = []
  health_dbs (db ∷ dbs) = health_db db ++ health_more dbs

  unfoldable pub render_health_json : List (MetricsDbInfo Double) → Bytes → Bytes → Double → Bytes
  unfolding health_dbs
  render_health_json dbs version mmdb_lib_version uptime_seconds = streamed (
      codes "{\"status\":\"ok\",\"version\":\""
      ∷ json_escape version
      ∷ codes "\",\"libmaxminddb_version\":\""
      ∷ json_escape mmdb_lib_version
      ∷ codes "\",\"uptime_seconds\":"
      ∷ fixed 0 uptime_seconds
      ∷ codes ",\"databases\":{"
      ∷ health_dbs dbs
      ∷ codes "}}"
      ∷ [])
