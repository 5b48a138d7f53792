-- ===== src/Tests/HttpTests.antt =====
-- The text helpers and the HTTP layer.
use nshgeoip.Prelude.{
  length, All, Bytes, codes, to_string, equal, split_first, contains, ◌≤◌, ◌≡◌, refl, ◌≢◌, true,
  false, none, some, List, [], ◌∷◌, ◌++◌, arith,
}
use nshgeoip.Text.{hex_digit, json_escape_byte, json_escape, sanitize_header_value}
use nshgeoip.Text.Json.{read_string, read_string-json_escape, plain}
use nshgeoip.Http.Chars.{trim_left, trim_right, trim_spaces, split_crlf}
use nshgeoip.Http.Percent.{hex_val, hex_pair, percent_decode}
use nshgeoip.Http.Percent.RoundTrip.{
  percent_encode, percent_decode-percent_encode, percent_decode_safe,
}
use nshgeoip.Http.Request.{
  all_upper, header_line, scan_headers, decode_pair, parse_query, read_parts, check_line,
  parse_http_request, negotiate_format, json, text,
}
use nshgeoip.Http.Request.Render.{render_request, IsOther, IsRequest}
use nshgeoip.Http.Request.RoundTrip.{parse_http_request-render_request}
use nshgeoip.Http.Response.{
  reason_phrase, content_type, fields, build_http_response, make_error_response, HttpResponse,
}
use nshgeoip.Http.Response.Framing.{
  read_response, status_line, sent_headers, read_response-build_http_response,
}
use nshgeoip.Http.ReadHead.{
  read_http_head, ReadResult, ok, too_large, connection_closed, Event, expires, interrupted, closes,
  receives,
}
use nshgeoip.Http.ReadHead.Outcome.{Promises, read_http_head_total}
use nshgeoip.Tests.Sample.{sample_request}

json_escape_controls : json_escape (1 ∷ b'"' ∷ 10 ∷ b'a' ∷ []) ≡ codes "\\u0001\\\"\\na"
unfolding json_escape json_escape_byte hex_digit
json_escape_controls = refl

sanitize_drops_crlf : sanitize_header_value (codes "A\r\nB: c") ≡ codes "AB: c"
unfolding sanitize_header_value
sanitize_drops_crlf = refl

percent_decode_examples :
    (percent_decode (codes "a%2Fb+c") ≡ some (codes "a/b c"))
    × (percent_decode (codes "a%2") ≡ none)
    × (percent_decode (codes "a%00") ≡ none)
    × (percent_decode (codes "%zz") ≡ none)
unfolding percent_decode hex_pair hex_val
percent_decode_examples = (refl, refl, refl, refl)

raw_request : Bytes
raw_request = codes "GET /lookup?ip=8.8.8.8&x HTTP/1.1\r\nHost: a\r\nACCEPT :  text/plain \r\n\r\n"

parse_example :
    parse_http_request raw_request
    ≡ some (record {
      method = codes "GET";
      path = codes "/lookup";
      query = (codes "ip", codes "8.8.8.8") ∷ (codes "x", []) ∷ [];
      accept = codes "text/plain";
    })
unfolding raw_request parse_http_request split_crlf split_first check_line equal all_upper
    scan_headers header_line trim_spaces read_parts percent_decode hex_pair hex_val parse_query
    decode_pair
parse_example = refl

parse_refuses :
    (parse_http_request (codes "GET /a HTTP/2\r\n\r\n") ≡ none)
    × (parse_http_request (codes "get /a HTTP/1.1\r\n\r\n") ≡ none)
    × (parse_http_request (codes "GET a HTTP/1.1\r\n\r\n") ≡ none)
    × (parse_http_request (codes "GET /a\r\n\r\n") ≡ none)
unfolding parse_http_request split_crlf split_first check_line equal all_upper scan_headers
    header_line trim_spaces read_parts percent_decode hex_pair hex_val parse_query decode_pair
parse_refuses = (refl, refl, refl, refl)

negotiate_examples :
    (negotiate_format (codes "Text/Plain") ≡ text)
    × (negotiate_format (codes "text/plain, application/JSON") ≡ json)
    × (negotiate_format (codes "*/*") ≡ json)
unfolding negotiate_format contains
negotiate_examples = (refl, refl, refl)

build_example :
    build_http_response (make_error_response 404 (codes "not found") json) true
    ≡ codes
        "HTTP/1.1 404 Not Found\r\nContent-Type: application/json\r\nContent-Length: 21\r\nConnection: close\r\n\r\n{\"error\":\"not found\"}"
unfolding build_http_response make_error_response json_escape json_escape_byte fields reason_phrase
    content_type to_string
build_example = refl

read_examples :
    (read_http_head 10 (receives (codes "ab\r\n\r") ∷ interrupted ∷ receives (codes "\n") ∷ [])
      ≡ some (ok, codes "ab\r\n\r\n"))
    × (read_http_head 3 (receives (codes "abcd") ∷ []) ≡ some (too_large, codes "abcd"))
    × (read_http_head 3 (receives (codes "ab") ∷ closes ∷ [])
        ≡ some (connection_closed, codes "ab"))
unfolding read_http_head contains
read_examples = (refl, refl, refl)

read_string-json_escape_example :
    read_string plain [] (json_escape (codes "a\"}") ++ b'"' ∷ codes ",1")
    ≡ some (codes "a\"}", codes ",1")
read_string-json_escape_example = read_string-json_escape (codes "a\"}") [] (codes ",1")

percent_decode-percent_encode_example :
    percent_decode (percent_encode (codes "a b&%")) ≡ some (codes "a b&%")
percent_decode-percent_encode_example = percent_decode-percent_encode (codes "a b&%") (omega arith)

percent_decode_safe_example :
    All (λ c. c ≢ 0) (codes "a/b c") × (length (codes "a/b c") ≤ length (codes "a%2Fb+c"))
percent_decode_safe_example = percent_decode_safe (codes "a%2Fb+c") percent_decode_examples.0

abbrev pub sample_others : List (Bytes × Bytes)
sample_others = (codes "Host", codes " localhost") ∷ []

pub sample_request-IsRequest : IsRequest sample_request
unfolding all_upper trim_spaces trim_left trim_right
sample_request-IsRequest = record {
  method_given = refl;
  method_upper = refl;
  path_bytes = omega arith;
  path_slash = refl;
  query_bytes = omega arith;
  accept_line = omega arith;
  accept_trimmed = refl;
}

pub sample_others-IsOther : All IsOther sample_others
unfolding trim_spaces trim_left trim_right equal
sample_others-IsOther = (
  record {
    no_colon = omega arith;
    name_line = omega arith;
    value_line = omega arith;
    not_accept = refl;
  },
  tt,
)

parse_http_request-render_request_example :
    parse_http_request (render_request sample_request sample_others) ≡ some sample_request
parse_http_request-render_request_example =
    parse_http_request-render_request sample_request sample_others sample_request-IsRequest
      sample_others-IsOther

sample_response : HttpResponse
sample_response = record {
  status = 200;
  format = json;
  headers = (codes "X-GeoIP-Country", codes "US") ∷ [];
  body = codes "{}\r\n\r\n";
}

read_response-build_http_response_example :
    read_response (build_http_response sample_response false)
    ≡ some (record {
      status_line = status_line sample_response;
      headers = sent_headers sample_response false;
      body = [];
    })
unfolding sample_response
read_response-build_http_response_example =
    read_response-build_http_response sample_response false
      ((refl, omega arith, omega arith, omega arith), tt)

sample_events : List Event
sample_events = receives (codes "GET / ") ∷ interrupted ∷ []

read_http_head_total_example :
    (t : ReadResult × Bytes) × (read_http_head 100 (sample_events ++ expires ∷ []) ≡ some t)
    × Promises 100 4096 t.0 t.1
unfolding sample_events
read_http_head_total_example =
    read_http_head_total 100 4096 sample_events [] (omega arith, (tt, (tt, tt)))
