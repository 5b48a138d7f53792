-- ===== src/Server/Accounting.antt =====
-- The counters over any number of connections.
use nshgeoip.Prelude.{
  Bool-cases, Option-cases, Bytes, codes, ℕ, ◌+◌, ◌%◌, ◌≡◌, refl, ap, ◌∙◌, inl, inr, Bool, true,
  false, Option, none, some, List, [], ◌∷◌, arith,
}
use nshgeoip.External.{External}
use nshgeoip.Geoip.{lookup, GeoIpResult}
use nshgeoip.Ip.{parse_ip_address, ParsedAddr}
use nshgeoip.Http.Request.{
  parse_http_request, find_query_param, negotiate_format, HttpRequest, ResponseFormat, json,
}
use nshgeoip.Http.Response.{make_error_response, HttpResponse}
use nshgeoip.Http.ReadHead.{
  read_http_head, ReadResult, ok, too_large, connection_closed, timeout, io_error, Event,
}
use nshgeoip.Metrics.{
  route, record_request, Metrics, Route, lookup_path, health_path, metrics_path, other_path,
}
use nshgeoip.Metrics.Totals.{
  word, requests, responses, requests-record_request, IsKnown, responses-record_response,
  responses-record_request, requests-record_response,
}
use nshgeoip.Server.Bodies.{build_success_response}
use nshgeoip.Server.Connection.{
  answer_result, answer_ip, answer_lookup, health_response, metrics_response, answer_route,
  is_refused, method_not_allowed, answer_request, reply, handle_request, handle_head,
  handle_connection, Context, Outcome,
}

-- The outcomes of /lookup that were counted.
abbrev pub lookups : Metrics → ℕ
lookups m = (m.lookup_found_total + m.lookup_not_found_total) % word

module _ (ext : External) where
  -- Every answer has one of the five statuses, and leaves the two totals alone.
  record Keeps (m : Metrics) (a : Metrics × HttpResponse) : Type 0 where
    status_known : IsKnown a.1.status
    requests_kept : requests a.0 ≡ requests m
    responses_kept : responses a.0 ≡ responses m

  make_error_response-status :
      (s : ℕ) (message : Bytes) (fmt : ResponseFormat)
      → (make_error_response s message fmt).status ≡ s
  unfolding make_error_response
  make_error_response-status s message json = refl
  make_error_response-status s message _ = refl

  error-Keeps :
      (m : Metrics) (s : ℕ) (message : Bytes) (fmt : ResponseFormat)
      → IsKnown s
      → Keeps m (m, make_error_response s message fmt)
  error-Keeps m s message fmt k = record {
    status_known = rw make_error_response-status k;
    requests_kept = refl;
    responses_kept = refl;
  }

  answer_result-Keeps :
      (m : Metrics) (ip_text : Bytes) (r : GeoIpResult ext.Double × Bool) (fmt : ResponseFormat)
      → Keeps m (answer_result ext m ip_text r fmt)
  unfolding answer_result build_success_response
  answer_result-Keeps m ip_text (result, true) fmt =
      error-Keeps m 500 _ fmt (inr (inr (inr (inr refl))))
  answer_result-Keeps m ip_text (result, false) fmt = elim (Bool-cases result.found) [
    | inl e ↦ rw e (record { status_known = inl refl; requests_kept = refl; responses_kept = refl })
    | inr e ↦ rw e (record {
      status_known = rw make_error_response-status (inr (inr (inl refl)));
      requests_kept = refl;
      responses_kept = refl;
    })
  ]

  answer_ip-Keeps :
      (m : Metrics) (ctx : Context ext) (ip_text : Bytes) (a : Option ParsedAddr)
      (fmt : ResponseFormat)
      → Keeps m (answer_ip ext m ctx ip_text a fmt)
  unfolding answer_ip
  answer_ip-Keeps m ctx ip_text none fmt = error-Keeps m 400 _ fmt (inr (inl refl))
  answer_ip-Keeps m ctx ip_text (some addr) fmt =
      answer_result-Keeps m ip_text (lookup ext ctx.databases addr) fmt

  answer_lookup-Keeps :
      (m : Metrics) (ctx : Context ext) (ip : Option Bytes) (fmt : ResponseFormat)
      → Keeps m (answer_lookup ext m ctx ip fmt)
  unfolding answer_lookup
  answer_lookup-Keeps m ctx none fmt = error-Keeps m 400 _ fmt (inr (inl refl))
  answer_lookup-Keeps m ctx (some []) fmt = error-Keeps m 400 _ fmt (inr (inl refl))
  answer_lookup-Keeps m ctx (some (c ∷ cs)) fmt =
      answer_ip-Keeps m ctx (c ∷ cs) (parse_ip_address ext.inet_pton (c ∷ cs)) fmt

  answer_route-Keeps :
      (m : Metrics) (ctx : Context ext) (req : HttpRequest) (r : Route) (fmt : ResponseFormat)
      → Keeps m (answer_route ext m ctx req r fmt)
  unfolding answer_route health_response metrics_response
  answer_route-Keeps m ctx req lookup_path fmt =
      answer_lookup-Keeps m ctx (find_query_param req (codes "ip")) fmt
  answer_route-Keeps m ctx req health_path fmt = record {
    status_known = inl refl;
    requests_kept = refl;
    responses_kept = refl;
  }
  answer_route-Keeps m ctx req metrics_path fmt = record {
    status_known = inl refl;
    requests_kept = refl;
    responses_kept = refl;
  }
  answer_route-Keeps m ctx req other_path fmt = error-Keeps m 404 _ fmt (inr (inr (inl refl)))

  -- One request more, the responses as before.
  record Counts (m : Metrics) (a : Metrics × HttpResponse) : Type 0 where
    status_known : IsKnown a.1.status
    request_counted : requests a.0 ≡ (requests m + 1) % word
    responses_kept : responses a.0 ≡ responses m

  recorded-Counts :
      (m : Metrics) (path : Bytes) (a : Metrics × HttpResponse)
      → Keeps (record_request m path) a
      → Counts m a
  recorded-Counts m path a k = record {
    status_known = k.status_known;
    request_counted = k.requests_kept ∙ requests-record_request m path;
    responses_kept = k.responses_kept ∙ responses-record_request m path;
  }

  answer_request-Counts :
      (m : Metrics) (ctx : Context ext) (req : HttpRequest)
      → Counts m (answer_request ext m ctx req)
  unfolding answer_request method_not_allowed
  answer_request-Counts m ctx req = elim (Bool-cases (is_refused ext req.method)) [
    | inl e ↦ rw e (
        recorded-Counts m req.path _ (record {
          status_known = rw make_error_response-status (inr (inr (inr (inl refl))));
          requests_kept = refl;
          responses_kept = refl;
        }))
    | inr e ↦ rw e (
        recorded-Counts m req.path _ (
          answer_route-Keeps (record_request m req.path) ctx req (route req.path)
            (negotiate_format req.accept)))
  ]

  -- How many replies an outcome holds.
  abbrev pub replies : Outcome ext → ℕ
  replies o = elim o.written [ none ↦ 0 | some bytes ↦ 1 ]

  -- The two totals move together, by the replies written.
  record Balances (m : Metrics) (o : Outcome ext) : Type 0 where
    requests_move : requests o.counters ≡ (requests m + replies o) % word
    responses_move : responses o.counters ≡ (responses m + replies o) % word

  reply-Balances :
      (m : Metrics) (a : Metrics × HttpResponse) (b : Bool)
      → Counts m a
      → Balances m (reply ext a b)
  unfolding reply
  reply-Balances m (m', resp) b c = record {
    requests_move = requests-record_response m' resp.status ∙ c.request_counted;
    responses_move =
        responses-record_response m' resp.status c.status_known
        ∙ ap (λ n. (n + 1) % word) c.responses_kept;
  }

  handle_request-Balances :
      (m : Metrics) (ctx : Context ext) (req : Option HttpRequest)
      → Balances m (handle_request ext m ctx req)
  unfolding handle_request
  handle_request-Balances m ctx none =
      reply-Balances m _ true
        (recorded-Counts m [] _ (error-Keeps (record_request m []) 400 _ json (inr (inl refl))))
  handle_request-Balances m ctx (some req) = reply-Balances m _ _ (answer_request-Counts m ctx req)

  dropped-Balances : (m : Metrics) → Balances m (record { counters = m; written = none })
  dropped-Balances m = record { requests_move = omega arith; responses_move = omega arith }

  handle_head-Balances :
      (m : Metrics) (ctx : Context ext) (r : ReadResult) (raw : Bytes)
      → Balances m (handle_head ext m ctx (r, raw))
  unfolding handle_head
  handle_head-Balances m ctx ok raw = handle_request-Balances m ctx (parse_http_request raw)
  handle_head-Balances m ctx too_large raw =
      reply-Balances m _ true
        (recorded-Counts m [] _ (error-Keeps (record_request m []) 400 _ json (inr (inl refl))))
  handle_head-Balances m ctx connection_closed raw = dropped-Balances m
  handle_head-Balances m ctx timeout raw = dropped-Balances m
  handle_head-Balances m ctx io_error raw = dropped-Balances m

  abbrev Handled : Metrics → Option (Outcome ext) → Type 0
  Handled m none = Unit
  Handled m (some o) = Balances m o

  handle_connection-Handled :
      (m : Metrics) (ctx : Context ext) (events : List Event)
      → Handled m (handle_connection ext m ctx events)
  unfolding handle_connection
  handle_connection-Handled m ctx events =
      elim (Option-cases (read_http_head ctx.max_request_bytes events)) [
        | inl e ↦ rw e tt
        | inr ((r, raw), e) ↦ rw e (handle_head-Balances m ctx r raw)
      ]

  add_words : (x y z n r : ℕ) → x ≡ (y + n) % word → y ≡ (z + r) % word → x ≡ (z + (n + r)) % word
  add_words x y z n r p q = omega arith

  -- Connections served one after another; one that still waits for its peer counts nothing.
  pub serve : Metrics → List (Context ext × List Event) → Metrics × ℕ
  serve m [] = (m, 0)
  serve m ((ctx, events) ∷ cs) = elim (handle_connection ext m ctx events) [
    | none ↦ serve m cs
    | some o ↦ let (m', n) = serve o.counters cs in (m', n + replies o)
  ]

  -- After any sequence of connections the request counters and the response counters have each
  -- grown by the number of replies written, modulo 2^64: every reply is counted once as a request
  -- and once as a response, and a connection that gets no reply is counted as neither.
  pub serve_counts :
      (cs : List (Context ext × List Event)) (m : Metrics)
      → (requests (serve m cs).0 ≡ (requests m + (serve m cs).1) % word)
        × (responses (serve m cs).0 ≡ (responses m + (serve m cs).1) % word)
  unfolding serve
  serve_counts [] m = (omega arith, omega arith)
  serve_counts ((ctx, events) ∷ cs) m = elim (Option-cases (handle_connection ext m ctx events)) [
    | inl e ↦ rw (e, serve) (serve_counts cs m)
    | inr (o, e) ↦
        let later = serve_counts cs o.counters in
        let now = rw e at (handle_connection-Handled m ctx events) in
        let n = (serve o.counters cs).1 in
        let done = (serve o.counters cs).0 in
        rw (e, serve)
          (
            add_words (requests done) _ (requests m) n (replies o) later.0 now.requests_move,
            add_words (responses done) _ (responses m) n (replies o) later.1 now.responses_move,
          )
  ]
