-- ===== src/Server/Connection.antt =====
-- src/server.cpp: `handle_connection`, from the receive loop to the bytes that are sent.
use nshgeoip.Prelude.{
  if◌then◌else◌, Bytes, codes, is_empty, equal, ℕ, Bool, true, not, ◌&&◌, Option, none, some, List,
  [], ◌∷◌, ◌++◌,
}
use nshgeoip.External.{External}
use nshgeoip.Ip.{parse_ip_address, ParsedAddr}
use nshgeoip.Geoip.{has_value, lookup, slot_metadata, GeoIpResult, GeoIpDatabases}
use nshgeoip.Http.Request.{
  parse_http_request, find_query_param, accept_wants_json, negotiate_format, HttpRequest,
  ResponseFormat, json, text, prometheus,
}
use nshgeoip.Http.Response.{build_http_response, make_error_response, HttpResponse}
use nshgeoip.Http.ReadHead.{read_http_head, ReadResult, ok, too_large, Event}
use nshgeoip.Metrics.{
  fetch_add, route, record_request, record_response, Metrics, Route, lookup_path, health_path,
  metrics_path, other_path,
}
use nshgeoip.Metrics.Render.{render_prometheus_metrics, render_health_json, MetricsDbInfo}
use nshgeoip.Server.Bodies.{map_option, build_success_response}

module _ (ext : External) where
  open ext use {Handle, Double}

  -- What the handler reads besides the connection: the configured limit, the databases, the clock
  -- and the version texts.
  pub record Context : Type 0 where
    pub max_request_bytes : ℕ
    pub databases : GeoIpDatabases Handle
    pub now : ℕ
    pub uptime : Double
    pub version : Bytes
    pub mmdb_lib_version : Bytes

  abbrev db_info : Bytes → ℕ → Option Handle → MetricsDbInfo Double
  db_info name now slot = record {
    name = name;
    open_now = has_value slot;
    metadata = slot_metadata ext now slot;
  }

  unfoldable pub collect_db_infos : GeoIpDatabases Handle → ℕ → List (MetricsDbInfo Double)
  collect_db_infos db now =
      db_info (codes "country") now db.country
      ∷ db_info (codes "asn") now db.asn
      ∷ db_info (codes "city") now db.city
      ∷ []

  -- Behind a lookup: the result and `db_error`.
  unfoldable pub answer_result :
      Metrics → Bytes → GeoIpResult Double × Bool → ResponseFormat → Metrics × HttpResponse
  answer_result m ip_text (result, db_error) fmt =
      if db_error
      then (m, make_error_response 500 (codes "internal database error") fmt)
      else if not result.found
      then (
        record m { lookup_not_found_total = fetch_add m.lookup_not_found_total },
        make_error_response 404 (codes "no geoip information found") fmt,
      )
      else (
        record m { lookup_found_total = fetch_add m.lookup_found_total },
        build_success_response ext ip_text result fmt,
      )

  -- Behind the search for the `ip` parameter, and the parsing of its value.
  unfoldable pub answer_ip :
      Metrics → Context → Bytes → Option ParsedAddr → ResponseFormat → Metrics × HttpResponse
  unfolding answer_result
  answer_ip m ctx ip_text none fmt = (m, make_error_response 400 (codes "invalid ip address") fmt)
  answer_ip m ctx ip_text (some addr) fmt =
      answer_result m ip_text (lookup ext ctx.databases addr) fmt

  unfoldable pub answer_lookup :
      Metrics → Context → Option Bytes → ResponseFormat → Metrics × HttpResponse
  unfolding answer_ip
  answer_lookup m ctx none fmt = (m, make_error_response 400 (codes "missing ip parameter") fmt)
  answer_lookup m ctx (some ip_text) fmt =
      if is_empty ip_text
      then (m, make_error_response 400 (codes "missing ip parameter") fmt)
      else answer_ip m ctx ip_text (parse_ip_address ext.inet_pton ip_text) fmt

  unfoldable pub health_response : Context → Bool → HttpResponse
  health_response ctx want_json = record {
    status = 200;
    format = if want_json then json else text;
    headers = [];
    body =
        if want_json
        then render_health_json ext (collect_db_infos ctx.databases ctx.now) ctx.version
            ctx.mmdb_lib_version ctx.uptime
        else codes "status=ok\n";
  }

  unfoldable pub metrics_response : Metrics → Context → HttpResponse
  metrics_response m ctx = record {
    status = 200;
    format = prometheus;
    headers = [];
    body =
        render_prometheus_metrics ext m (collect_db_infos ctx.databases ctx.now) ctx.version
          ctx.mmdb_lib_version ctx.uptime;
  }

  unfoldable pub answer_route :
      Metrics → Context → HttpRequest → Route → ResponseFormat → Metrics × HttpResponse
  unfolding answer_lookup
  answer_route m ctx req lookup_path fmt =
      answer_lookup m ctx (find_query_param req (codes "ip")) fmt
  answer_route m ctx req health_path fmt = (m, health_response ctx (accept_wants_json req.accept))
  answer_route m ctx req metrics_path fmt = (m, metrics_response m ctx)
  answer_route m ctx req other_path fmt = (m, make_error_response 404 (codes "not found") fmt)

  abbrev is_get : Bytes → Bool
  is_get method = equal method (codes "GET")

  abbrev pub is_head : Bytes → Bool
  is_head method = equal method (codes "HEAD")

  abbrev pub is_refused : Bytes → Bool
  is_refused method = not (is_get method) && not (is_head method)

  unfoldable pub method_not_allowed : ResponseFormat → HttpResponse
  method_not_allowed fmt =
      let resp = make_error_response 405 (codes "method not allowed") fmt in
      record resp { headers = resp.headers ++ (codes "Allow", codes "GET, HEAD") ∷ [] }

  -- A request that was parsed.
  unfoldable pub answer_request : Metrics → Context → HttpRequest → Metrics × HttpResponse
  unfolding answer_route
  answer_request m ctx req =
      let counted = record_request m req.path in
      let fmt = negotiate_format req.accept in
      if is_refused req.method
      then (counted, method_not_allowed fmt)
      else answer_route counted ctx req (route req.path) fmt

  -- The counters, and the bytes that `write_all` is given, if any. The socket is closed in any
  -- case.
  pub record Outcome : Type 0 where
    pub counters : Metrics
    pub written : Option Bytes

  -- The end of the handler: count the response and serialise it.
  unfoldable pub reply : Metrics × HttpResponse → Bool → Outcome
  reply (m, resp) include_body = record {
    counters = record_response m resp.status;
    written = some (build_http_response resp include_body);
  }

  -- From the parsed request on; `none` is a request that parse_http_request() refused.
  unfoldable pub handle_request : Metrics → Context → Option HttpRequest → Outcome
  unfolding reply
  handle_request m ctx none =
      reply (record_request m [], make_error_response 400 (codes "malformed HTTP request") json)
        true
  handle_request m ctx (some req) = reply (answer_request m ctx req) (not (is_head req.method))

  unfoldable pub handle_head : Metrics → Context → ReadResult × Bytes → Outcome
  unfolding handle_request
  handle_head m ctx (ok, raw) = handle_request m ctx (parse_http_request raw)
  handle_head m ctx (too_large, raw) =
      reply (record_request m [], make_error_response 400 (codes "request too large") json) true
  handle_head m ctx (result, raw) = record { counters = m; written = none }

  -- `none` while the receive loop still waits.
  unfoldable pub handle_connection : Metrics → Context → List Event → Option Outcome
  unfolding handle_head
  handle_connection m ctx events =
      map_option (handle_head m ctx) (read_http_head ctx.max_request_bytes events)
