-- ===== src/Metrics.antt =====
-- src/metrics.cpp and src/metrics.h: the request counters. A counter is an `atomic_uint64_t`;
-- it is modelled as a number, with the wrap-around written out.
pub mod Totals
pub mod Render
use nshgeoip.Prelude.{◌==◌, if◌then◌else◌, Bytes, codes, equal, ℕ, ◌+◌, ◌%◌, ◌^◌}

pub record Metrics : Type 0 where
  pub lookup_requests_total : ℕ
  pub health_requests_total : ℕ
  pub metrics_requests_total : ℕ
  pub other_requests_total : ℕ
  pub responses_200 : ℕ
  pub responses_400 : ℕ
  pub responses_404 : ℕ
  pub responses_405 : ℕ
  pub responses_500 : ℕ
  pub lookup_found_total : ℕ
  pub lookup_not_found_total : ℕ

-- `counter.fetch_add(1)`.
abbrev pub fetch_add : ℕ → ℕ
fetch_add n = (n + 1) % 2 ^ 64

pub data Route : Type 0 where
  lookup_path health_path metrics_path other_path : Route

-- The comparisons of `req.path` in `record_request` and in `handle_connection`.
unfoldable pub route : Bytes → Route
route path =
    if equal path (codes "/lookup")
    then lookup_path
    else if equal path (codes "/health")
    then health_path
    else if equal path (codes "/metrics")
    then metrics_path
    else other_path

abbrev pub count_route : Metrics → Route → Metrics
count_route m lookup_path = record m { lookup_requests_total = fetch_add m.lookup_requests_total }
count_route m health_path = record m { health_requests_total = fetch_add m.health_requests_total }
count_route m metrics_path = record m {
  metrics_requests_total = fetch_add m.metrics_requests_total;
}
count_route m other_path = record m { other_requests_total = fetch_add m.other_requests_total }

unfoldable pub record_request : Metrics → Bytes → Metrics
record_request m path = count_route m (route path)

unfoldable pub record_response : Metrics → ℕ → Metrics
record_response m status =
    if status == 200
    then record m { responses_200 = fetch_add m.responses_200 }
    else if status == 400
    then record m { responses_400 = fetch_add m.responses_400 }
    else if status == 404
    then record m { responses_404 = fetch_add m.responses_404 }
    else if status == 405
    then record m { responses_405 = fetch_add m.responses_405 }
    else if status == 500
    then record m { responses_500 = fetch_add m.responses_500 }
    else m

abbrev pub initial_metrics : Metrics
initial_metrics = record {
  lookup_requests_total = 0;
  health_requests_total = 0;
  metrics_requests_total = 0;
  other_requests_total = 0;
  responses_200 = 0;
  responses_400 = 0;
  responses_404 = 0;
  responses_405 = 0;
  responses_500 = 0;
  lookup_found_total = 0;
  lookup_not_found_total = 0;
}
