-- ===== src/Server/Wire.antt =====
-- What stands on the wire for each answer.
use nshgeoip.Prelude.{
  if◌then◌else◌, Bool-cases, All, All-mono, Bytes, codes, is_empty, Without, to_string-IsDigit,
  IsDigit, to_string, equal, ℕ, ◌≡◌, refl, subst, ◌≢◌, inl, inr, Bool, true, false, not, Option,
  none, some, List, [], ◌∷◌, arith,
}
use nshgeoip.External.{External}
use nshgeoip.Geoip.{lookup, GeoIpResult}
use nshgeoip.Ip.{parse_ip_address, ParsedAddr}
use nshgeoip.Text.{sanitize_header_value}
use nshgeoip.Text.Clean.{IsPlain, sanitize_header_value-IsPlain}
use nshgeoip.Http.Request.{parse_http_request, find_query_param, HttpRequest, ResponseFormat, json}
use nshgeoip.Http.Response.{make_error_response, HttpResponse}
use nshgeoip.Http.Response.Framing.{
  read_response, IsField, status_line, sent_headers, read_response-build_http_response,
}
use nshgeoip.Http.ReadHead.{
  read_http_head, ReadResult, ok, too_large, connection_closed, timeout, io_error, Event,
}
use nshgeoip.Metrics.{
  route, record_request, Metrics, Route, lookup_path, health_path, metrics_path, other_path,
}
use nshgeoip.Server.Bodies.{
  header, map_option, format_double, geoip_headers, build_success_response,
}
use nshgeoip.Server.Connection.{
  answer_result, answer_ip, answer_lookup, health_response, metrics_response, answer_route, is_head,
  is_refused, method_not_allowed, answer_request, reply, handle_request, handle_head,
  handle_connection, Context, Outcome,
}
use mathlib.Core.Option.{some-injective}

abbrev IsLine : Option Bytes → Type 0
IsLine none = Unit
IsLine (some v) = Without 13 v

abbrev IsName : Bytes → Type 0
IsName name = (is_empty name ≡ false) × Without b':' name × Without 13 name

header-IsField :
    (name : Bytes) (value : Option Bytes) (rest : List (Bytes × Bytes))
    → IsName name
    → IsLine value
    → All IsField rest
    → All IsField (header name value rest)
header-IsField name none rest n v h = h
header-IsField name (some v) rest n l h = ((n.0, n.1, n.2, l), h)

clean-IsLine : (o : Option Bytes) → IsLine (map_option sanitize_header_value o)
clean-IsLine none = tt
clean-IsLine (some s) =
    All-mono IsPlain (λ x. x ≢ 13) (λ x p. omega (arith, p.0)) _ (sanitize_header_value-IsPlain s)

number-IsLine : (o : Option ℕ) → IsLine (map_option to_string o)
number-IsLine none = tt
number-IsLine (some n) =
    All-mono IsDigit (λ x. x ≢ 13) (λ x p. omega (arith, p.0)) _ (to_string-IsDigit n)

-- The formatted numbers of the C++ library stay on their line.
abbrev pub PrintsLines : External → Type 0
PrintsLines ext = (x : ext.Double) → Without 13 (ext.general 9 x)

module _ (ext : External) (prints : PrintsLines ext) where
  double-IsLine : (o : Option ext.Double) → IsLine (map_option (format_double ext) o)
  unfolding format_double
  double-IsLine none = tt
  double-IsLine (some x) = prints x

  geoip_headers-IsField : (r : GeoIpResult ext.Double) → All IsField (geoip_headers ext r)
  unfolding geoip_headers
  geoip_headers-IsField r =
      let name = λ (n : Bytes) (v : Option Bytes). header-IsField n v in
      name (codes "X-GeoIP-Country") _ _ (refl, omega arith, omega arith)
        (clean-IsLine r.country_code)
        (name (codes "X-GeoIP-Continent") _ _ (refl, omega arith, omega arith)
          (clean-IsLine r.continent_code)
          (name (codes "X-GeoIP-ASN") _ _ (refl, omega arith, omega arith) (number-IsLine r.asn)
            (name (codes "X-GeoIP-AS-Org") _ _ (refl, omega arith, omega arith)
              (clean-IsLine r.as_org)
              (name (codes "X-GeoIP-City") _ _ (refl, omega arith, omega arith)
                (clean-IsLine r.city_name)
                (name (codes "X-GeoIP-Postal-Code") _ _ (refl, omega arith, omega arith)
                  (clean-IsLine r.postal_code)
                  (name (codes "X-GeoIP-Latitude") _ _ (refl, omega arith, omega arith)
                    (double-IsLine r.latitude)
                    (name (codes "X-GeoIP-Longitude") _ _ (refl, omega arith, omega arith)
                      (double-IsLine r.longitude)
                      (name (codes "X-GeoIP-Accuracy-Radius") _ _ (refl, omega arith, omega arith)
                        (number-IsLine r.accuracy_radius) tt))))))))

  error-IsField :
      (s : ℕ) (message : Bytes) (fmt : ResponseFormat)
      → (make_error_response s message fmt).headers ≡ []
  unfolding make_error_response
  error-IsField s message json = refl
  error-IsField s message _ = refl

  abbrev HasFields : Metrics × HttpResponse → Type 0
  HasFields a = All IsField a.1.headers

  answer_result-HasFields :
      (m : Metrics) (ip_text : Bytes) (r : GeoIpResult ext.Double × Bool) (fmt : ResponseFormat)
      → HasFields (answer_result ext m ip_text r fmt)
  unfolding answer_result build_success_response
  answer_result-HasFields m ip_text (result, true) fmt = rw error-IsField tt
  answer_result-HasFields m ip_text (result, false) fmt = elim (Bool-cases result.found) [
    | inl e ↦ rw e (geoip_headers-IsField result)
    | inr e ↦ rw e (rw error-IsField tt)
  ]

  answer_ip-HasFields :
      (m : Metrics) (ctx : Context ext) (ip_text : Bytes) (a : Option ParsedAddr)
      (fmt : ResponseFormat)
      → HasFields (answer_ip ext m ctx ip_text a fmt)
  unfolding answer_ip
  answer_ip-HasFields m ctx ip_text none fmt = rw error-IsField tt
  answer_ip-HasFields m ctx ip_text (some addr) fmt =
      answer_result-HasFields m ip_text (lookup ext ctx.databases addr) fmt

  answer_lookup-HasFields :
      (m : Metrics) (ctx : Context ext) (ip : Option Bytes) (fmt : ResponseFormat)
      → HasFields (answer_lookup ext m ctx ip fmt)
  unfolding answer_lookup
  answer_lookup-HasFields m ctx none fmt = rw error-IsField tt
  answer_lookup-HasFields m ctx (some []) fmt = rw error-IsField tt
  answer_lookup-HasFields m ctx (some (c ∷ cs)) fmt =
      answer_ip-HasFields m ctx (c ∷ cs) (parse_ip_address ext.inet_pton (c ∷ cs)) fmt

  answer_route-HasFields :
      (m : Metrics) (ctx : Context ext) (req : HttpRequest) (r : Route) (fmt : ResponseFormat)
      → HasFields (answer_route ext m ctx req r fmt)
  unfolding answer_route health_response metrics_response
  answer_route-HasFields m ctx req lookup_path fmt =
      answer_lookup-HasFields m ctx (find_query_param req (codes "ip")) fmt
  answer_route-HasFields m ctx req health_path fmt = tt
  answer_route-HasFields m ctx req metrics_path fmt = tt
  answer_route-HasFields m ctx req other_path fmt = rw error-IsField tt

  answer_request-HasFields :
      (m : Metrics) (ctx : Context ext) (req : HttpRequest)
      → HasFields (answer_request ext m ctx req)
  unfolding answer_request method_not_allowed
  answer_request-HasFields m ctx req = elim (Bool-cases (is_refused ext req.method)) [
    | inl e ↦ rw e (rw error-IsField ((refl, omega arith, omega arith, omega arith), tt))
    | inr e ↦ rw e (answer_route-HasFields (record_request m req.path) ctx req (route req.path) _)
  ]

  -- `resp` is what a client reads: its status, its fields behind those that every response has, each
  -- as one line, and its body.
  abbrev pub IsMessage : HttpResponse → Bool → Option Bytes → Type 0
  IsMessage resp include_body none = ⊥
  IsMessage resp include_body (some bytes) =
      All IsField resp.headers
      × (read_response bytes
          ≡ some (record {
            status_line = status_line resp;
            headers = sent_headers resp include_body;
            body = if include_body then resp.body else [];
          }))

  -- What is to be written to a client whose request was parsed, or refused.
  abbrev pub AnswersRequest : Metrics → Context ext → Option HttpRequest → Option Bytes → Type 0
  AnswersRequest m ctx none written =
      IsMessage (make_error_response 400 (codes "malformed HTTP request") json) true written
  AnswersRequest m ctx (some req) written =
      IsMessage (answer_request ext m ctx req).1 (not (equal req.method (codes "HEAD"))) written

  -- What is to be written after the receive loop.
  abbrev pub AnswersHead : Metrics → Context ext → ReadResult → Bytes → Option Bytes → Type 0
  AnswersHead m ctx ok raw written = AnswersRequest m ctx (parse_http_request raw) written
  AnswersHead m ctx too_large raw written =
      IsMessage (make_error_response 400 (codes "request too large") json) true written
  AnswersHead m ctx _ raw written = written ≡ none

  reply-IsMessage :
      (a : Metrics × HttpResponse) (b : Bool)
      → HasFields a
      → IsMessage a.1 b (reply ext a b).written
  unfolding reply
  reply-IsMessage (m, resp) b h = (h, read_response-build_http_response resp b h)

  error-IsMessage :
      (m : Metrics) (s : ℕ) (message : Bytes)
      → IsMessage
          (make_error_response s message json)
          true
          (reply ext (m, make_error_response s message json) true).written
  error-IsMessage m s message =
      reply-IsMessage (m, make_error_response s message json) true (rw error-IsField tt)

  handle_request-AnswersRequest :
      (m : Metrics) (ctx : Context ext) (req : Option HttpRequest)
      → AnswersRequest m ctx req (handle_request ext m ctx req).written
  unfolding handle_request
  handle_request-AnswersRequest m ctx none = error-IsMessage (record_request m []) 400 _
  handle_request-AnswersRequest m ctx (some req) =
      reply-IsMessage (answer_request ext m ctx req) (not (is_head ext req.method))
        (answer_request-HasFields m ctx req)

  handle_head-AnswersHead :
      (m : Metrics) (ctx : Context ext) (r : ReadResult) (raw : Bytes)
      → AnswersHead m ctx r raw (handle_head ext m ctx (r, raw)).written
  unfolding handle_head
  handle_head-AnswersHead m ctx ok raw =
      handle_request-AnswersRequest m ctx (parse_http_request raw)
  handle_head-AnswersHead m ctx too_large raw = error-IsMessage (record_request m []) 400 _
  handle_head-AnswersHead m ctx connection_closed raw = refl
  handle_head-AnswersHead m ctx timeout raw = refl
  handle_head-AnswersHead m ctx io_error raw = refl

  -- Whatever is received, provided that `double` prints on one line: a client that reads what is
  -- written up to the empty line, and the rest as the body, finds the status, exactly the fields and
  -- the body of the answer to the request, without the body for HEAD; of the error 400 if the request
  -- is too large or malformed; and nothing is written if the client closed, was too slow or the read
  -- failed. No field of the answer, a database's values included, ends its line early or becomes a
  -- second field.
  pub handle_connection-WritesMessage :
      (m : Metrics) (ctx : Context ext) (events : List Event) (r : ReadResult) (raw : Bytes)
      (o : Outcome ext)
      → read_http_head ctx.max_request_bytes events ≡ some (r, raw)
      → handle_connection ext m ctx events ≡ some o
      → AnswersHead m ctx r raw o.written
  unfolding handle_connection
  handle_connection-WritesMessage m ctx events r raw o h e =
      subst (λ (o : Outcome ext). AnswersHead m ctx r raw o.written)
        (some-injective _ _ (rw h at e)) (handle_head-AnswersHead m ctx r raw)
