-- ===== src/Metrics/Totals.antt =====
-- The counters seen as three totals, modulo the width of a counter.
use nshgeoip.Prelude.{Bytes, ℕ, ◌+◌, ◌%◌, ◌^◌, ◌≡◌, refl, ◌⊎◌, inl, inr, arith}
use nshgeoip.Metrics.{
  route, count_route, record_request, record_response, Metrics, lookup_path, health_path,
  metrics_path, other_path,
}

abbrev pub word : ℕ
word = 2 ^ 64

-- Requests that were counted, over all paths.
abbrev pub requests : Metrics → ℕ
requests m =
    (m.lookup_requests_total + m.health_requests_total + m.metrics_requests_total
      + m.other_requests_total)
    % word

-- Responses that were counted, over all statuses.
abbrev pub responses : Metrics → ℕ
responses m =
    (m.responses_200 + m.responses_400 + m.responses_404 + m.responses_405 + m.responses_500) % word

pub requests-record_request :
    (m : Metrics) (path : Bytes) → requests (record_request m path) ≡ (requests m + 1) % word
unfolding record_request
requests-record_request m path =
    elim (route path) as (λ r. requests (count_route m r) ≡ (requests m + 1) % word) [
      | lookup_path ↦ omega arith
      | health_path ↦ omega arith
      | metrics_path ↦ omega arith
      | other_path ↦ omega arith
    ]

-- A status that the server uses.
abbrev pub IsKnown : ℕ → Type 0
IsKnown s = (s ≡ 200) ⊎ ((s ≡ 400) ⊎ ((s ≡ 404) ⊎ ((s ≡ 405) ⊎ (s ≡ 500))))

pub responses-record_response :
    (m : Metrics) (s : ℕ) → IsKnown s → responses (record_response m s) ≡ (responses m + 1) % word
unfolding record_response
responses-record_response m s (inl e) = rw e (omega arith)
responses-record_response m s (inr (inl e)) = rw e (omega arith)
responses-record_response m s (inr (inr (inl e))) = rw e (omega arith)
responses-record_response m s (inr (inr (inr (inl e)))) = rw e (omega arith)
responses-record_response m s (inr (inr (inr (inr e)))) = rw e (omega arith)

pub responses-record_request :
    (m : Metrics) (path : Bytes) → responses (record_request m path) ≡ responses m
unfolding record_request
responses-record_request m path =
    elim (route path) as (λ r. responses (count_route m r) ≡ responses m) [
      | lookup_path ↦ refl
      | health_path ↦ refl
      | metrics_path ↦ refl
      | other_path ↦ refl
    ]

pub requests-record_response : (m : Metrics) (s : ℕ) → requests (record_response m s) ≡ requests m
unfolding record_response
requests-record_response m s = ground arith
