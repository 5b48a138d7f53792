-- ===== src/Tests/ServerTests.antt =====
-- The databases, the handling of a connection and the counters.
use nshgeoip.Prelude.{
  All-mono, Bytes, codes, to_string-IsDigit, IsDigit, to_string, equal, contains, ℕ, ◌+◌, ◌%◌, ◌≡◌,
  refl, ap, ◌≢◌, ◌↔◌, true, false, not, some, List, [], ◌∷◌, arith,
}
use nshgeoip.Text.{sanitize_header_value}
use nshgeoip.Ip.{parse_ip_address, af_inet, ParsedAddr}
use nshgeoip.Ip.Accepts.{parse_ip_address-IsAddressOf, IsAddressOf}
use nshgeoip.External.{OpenResult, opened, failed}
use nshgeoip.Geoip.{
  no_databases, destroy, get_string, get_uint32, get_uint16, get_double, fill_country, fill_asn,
  fill_city, consult, lookup, Slot, asn_slot, city_slot,
}
use nshgeoip.Geoip.Fields.{expected, any_error, lookup-expected}
use nshgeoip.Geoip.Handles.{run_opens, destroy_closes_all}
use nshgeoip.Http.Request.Render.{
  render_pairs, render_others, render_target, render_line, accept_lines, render_request,
}
use nshgeoip.Http.Percent.RoundTrip.{is_unreserved, percent_encode}
use nshgeoip.Http.ReadHead.{read_http_head, ok, Event, receives}
use nshgeoip.Metrics.{initial_metrics}
use nshgeoip.Metrics.Totals.{word, requests, responses}
use nshgeoip.Server.Write.{write_all, write_all-IsWritten, SendResult, takes, interrupts, IsWritten}
use nshgeoip.Server.Bodies.{map_option, build_ini_body}
use nshgeoip.Server.Connection.{
  is_head, answer_request, reply, handle_request, handle_head, handle_connection, Outcome,
}
use nshgeoip.Server.Accounting.{serve, serve_counts}
use nshgeoip.Server.Wire.{PrintsLines, AnswersHead, handle_connection-WritesMessage}
use nshgeoip.Server.Exchange.{handle_connection_answers, head_like_get}
use nshgeoip.Tests.Sample.{
  sample_pton, sample_ext, sample_databases, sample_context, sample_request,
}
use nshgeoip.Tests.HttpTests.{sample_others, sample_request-IsRequest, sample_others-IsOther}
use mathlib.Core.List.{Perm}

sample_addr : ParsedAddr
sample_addr = record { len = 16; family = af_inet; address = 8 ∷ 8 ∷ 8 ∷ 8 ∷ [] }

lookup_fields :
    ((lookup sample_ext sample_databases sample_addr).0.country_code ≡ some (codes "US"))
    × ((lookup sample_ext sample_databases sample_addr).0.asn ≡ some 15169)
    × ((lookup sample_ext sample_databases sample_addr).0.city_name ≡ some (codes "A\r\nB"))
unfolding sample_addr lookup consult fill_country fill_asn fill_city get_string get_uint32
    get_uint16 get_double equal
lookup_fields = (refl, refl, refl)

sample_raw : Bytes
sample_raw = codes "GET /lookup?ip=8.8.8.8 HTTP/1.1\r\nAccept: text/plain\r\n\r\n"

sample_get : List Event
sample_get = receives sample_raw ∷ []

ini_answer :
    build_ini_body sample_ext (codes "8.8.8.8") (lookup sample_ext sample_databases sample_addr).0
    ≡ codes "ip=8.8.8.8\ncountry_code=US\ncountry_name=US\nasn=15169\ncity_name=AB\n"
unfolding sample_addr lookup consult fill_country fill_asn fill_city get_string get_uint32
    get_uint16 get_double equal build_ini_body sanitize_header_value to_string
ini_answer = refl

lookup-expected_example :
    ((lookup sample_ext sample_databases sample_addr).1
      ≡ any_error sample_ext sample_databases sample_addr)
    × (any_error sample_ext sample_databases sample_addr ≡ false
        → (lookup sample_ext sample_databases sample_addr).0
          ≡ expected sample_ext sample_databases sample_addr)
lookup-expected_example = lookup-expected sample_ext sample_databases sample_addr

abbrev sample_calls : List (Slot × Bytes × OpenResult ℕ)
sample_calls =
    (city_slot, codes "/c", opened 1)
    ∷ (city_slot, codes "/c", failed (codes "gone"))
    ∷ (city_slot, codes "/c", opened 2)
    ∷ (asn_slot, codes "/a", opened 3)
    ∷ []

destroy_closes_all_example : Perm (destroy (run_opens no_databases sample_calls)) (1 ∷ 2 ∷ 3 ∷ [])
destroy_closes_all_example = destroy_closes_all sample_calls

parse_ip_address-IsAddressOf_example :
    (parse_ip_address sample_pton (codes "8.8.8.8") ≡ some sample_addr)
    ↔ IsAddressOf sample_pton (codes "8.8.8.8") sample_addr
parse_ip_address-IsAddressOf_example =
    parse_ip_address-IsAddressOf sample_pton (codes "8.8.8.8") sample_addr

handle_connection_answers_example :
    handle_connection sample_ext initial_metrics sample_context
      (receives (render_request sample_request sample_others) ∷ [])
    ≡ some (
        reply sample_ext
          (answer_request sample_ext initial_metrics sample_context sample_request)
          (not (is_head sample_ext sample_request.method)))
unfolding render_request render_line render_target render_pairs render_others accept_lines
    percent_encode is_unreserved
handle_connection_answers_example =
    handle_connection_answers sample_ext initial_metrics sample_context sample_request sample_others
      [] sample_request-IsRequest sample_others-IsOther (omega arith)

head_like_get_example :
    (handle_request sample_ext initial_metrics sample_context
      (some (record sample_request { method = codes "HEAD" }))).counters
    ≡ (handle_request sample_ext initial_metrics sample_context
        (some (record sample_request { method = codes "GET" }))).counters
head_like_get_example = (head_like_get sample_ext initial_metrics sample_context sample_request).0

sample_prints : PrintsLines sample_ext
sample_prints n =
    All-mono IsDigit (λ x. x ≢ 13) (λ x d. omega arith) (to_string n) (to_string-IsDigit n)

-- The city of the answer is "A\r\nB" in the database.
sample_reply : Outcome sample_ext
sample_reply = handle_head sample_ext initial_metrics sample_context (ok, sample_raw)

sample_received : read_http_head 8192 sample_get ≡ some (ok, sample_raw)
unfolding read_http_head sample_get sample_raw contains
sample_received = refl

sample_replied :
    handle_connection sample_ext initial_metrics sample_context sample_get ≡ some sample_reply
unfolding handle_connection sample_reply
sample_replied =
    ap (map_option (handle_head sample_ext initial_metrics sample_context)) sample_received

handle_connection-WritesMessage_example :
    AnswersHead sample_ext sample_prints initial_metrics sample_context ok sample_raw
      sample_reply.written
handle_connection-WritesMessage_example =
    handle_connection-WritesMessage sample_ext sample_prints initial_metrics sample_context
      sample_get ok sample_raw sample_reply sample_received sample_replied

serve_counts_example :
    (requests (serve sample_ext initial_metrics ((sample_context, sample_get) ∷ [])).0
      ≡ (requests initial_metrics
          + (serve sample_ext initial_metrics ((sample_context, sample_get) ∷ [])).1)
        % word)
    × (responses (serve sample_ext initial_metrics ((sample_context, sample_get) ∷ [])).0
        ≡ (responses initial_metrics
            + (serve sample_ext initial_metrics ((sample_context, sample_get) ∷ [])).1)
          % word)
serve_counts_example = serve_counts sample_ext ((sample_context, sample_get) ∷ []) initial_metrics

abbrev sample_results : List SendResult
sample_results = takes 2 ∷ interrupts ∷ takes 9 ∷ []

write_partial :
    write_all sample_results (codes "abcd") ≡ record { sent = codes "abcd"; returned = some true }
unfolding write_all
write_partial = refl

write_all-IsWritten_example :
    IsWritten sample_results (codes "abcd") (write_all sample_results (codes "abcd"))
write_all-IsWritten_example = write_all-IsWritten sample_results (codes "abcd")
