-- ===== src/Main/Health/Answered.antt =====
-- The health client against the daemon's own answers.
use nshgeoip.Prelude.{
  length, Bytes, codes, Without, starts_with, to_string, equal, split_first, contains, ℕ, zero, suc,
  ◌≤◌, ◌<◌, ◌≡◌, refl, ◌∙◌, true, false, some, [], ◌∷◌, arith,
}
use nshgeoip.External.{External}
use nshgeoip.Metrics.{route, record_request, Metrics}
use nshgeoip.Http.Chars.{trim_left, trim_right, trim_spaces, split_crlf}
use nshgeoip.Http.Percent.{percent_decode}
use nshgeoip.Http.Request.{
  all_upper, header_line, scan_headers, decode_pair, parse_query, read_parts, check_line,
  parse_http_request, accept_wants_json, negotiate_format, HttpRequest,
}
use nshgeoip.Http.Response.{build_http_response}
use nshgeoip.Http.ReadHead.{read_http_head, ok, receives}
use nshgeoip.Server.Connection.{
  health_response, answer_route, answer_request, reply, handle_connection, Context, Outcome,
}
use nshgeoip.Server.Write.{take}
use nshgeoip.Main.Health.{
  health_request, sun_path_size, before_nul, judge, check_health, succeeds, gets, healthy, Peer,
}

abbrev health_query : HttpRequest
health_query = record { method = codes "GET"; path = codes "/health"; query = []; accept = [] }

health_request_parsed : parse_http_request health_request ≡ some health_query
unfolding parse_http_request all_upper header_line scan_headers decode_pair parse_query read_parts
    check_line split_crlf trim_spaces trim_left trim_right percent_decode equal split_first
health_request_parsed = refl

health_request_read :
    (max_bytes : ℕ)
    → 256 ≤ max_bytes
    → read_http_head max_bytes (receives health_request ∷ []) ≡ some (ok, health_request)
unfolding read_http_head contains
health_request_read max_bytes h = ground arith

starts_with-take :
    (p s : Bytes) (n : ℕ) → starts_with p s ≡ true → length p ≤ n → starts_with p (take n s) ≡ true
starts_with-take [] s n h k = refl
starts_with-take (c ∷ p) [] n h k = cc
starts_with-take (c ∷ p) (x ∷ s) zero h k = absurd (omega arith)
starts_with-take (c ∷ p) (x ∷ s) (suc n) h k = ground (arith, starts_with-take p s n)

starts_with-before_nul :
    (p s : Bytes) → Without 0 p → starts_with p s ≡ true → starts_with p (before_nul s) ≡ true
starts_with-before_nul [] s w h = refl
starts_with-before_nul (c ∷ p) [] w h = cc
starts_with-before_nul (c ∷ p) (x ∷ s) w h = ground (arith, starts_with-before_nul p s w.1)

judge_ok : (s : Bytes) → starts_with (codes "HTTP/1.1 200") s ≡ true → judge (gets s) ≡ healthy
unfolding judge
judge_ok [] h = cc
judge_ok (c ∷ s) h = rw (starts_with-before_nul (codes "HTTP/1.1 200") (c ∷ s) (omega arith) h) refl

-- A client that reaches the daemon.
abbrev pub reached : Bytes → Peer
reached answer = record {
  socketed = succeeds;
  connected = succeeds;
  written = succeeds;
  answer = gets answer;
}

check_health-judge :
    (socket_path : Bytes) (tcp_port : ℕ) (answer : Bytes)
    → length socket_path < sun_path_size
    → check_health socket_path tcp_port (reached answer) ≡ judge (gets answer)
unfolding check_health
check_health-judge socket_path tcp_port answer h = ground arith

module _ (ext : External) where
  health_outcome : Metrics → Context ext → Outcome ext
  unfolding reply
  health_outcome m ctx =
      reply ext (record_request m (codes "/health"), health_response ext ctx false) true

  health_answered :
      (m : Metrics) (ctx : Context ext)
      → 256 ≤ ctx.max_request_bytes
      → handle_connection ext m ctx (receives health_request ∷ []) ≡ some (health_outcome m ctx)
  unfolding handle_connection health_outcome answer_request answer_route route negotiate_format
      accept_wants_json equal contains
  health_answered m ctx h =
      rw (health_request_read ctx.max_request_bytes h, health_request_parsed) refl

  health_text_ok :
      (m : Metrics) (ctx : Context ext)
      → (w : Bytes) × ((health_outcome m ctx).written ≡ some w)
        × (starts_with (codes "HTTP/1.1 200") w ≡ true)
  unfolding health_outcome build_http_response to_string health_response
  health_text_ok m ctx = (_, refl, refl)

  -- A client that reaches the daemon and reads at least the status line's first twelve bytes finds
  -- it healthy, whatever databases are open and whatever the counters say: a limit of 256 bytes, the
  -- least that the configuration allows, is enough for its request.
  pub health_check_passes :
      (m : Metrics) (ctx : Context ext) (socket_path : Bytes) (tcp_port n : ℕ)
      → 256 ≤ ctx.max_request_bytes
      → length socket_path < sun_path_size
      → 12 ≤ n
      → (o : Outcome ext) × (w : Bytes) × (handle_connection ext m ctx
            (receives health_request ∷ [])
          ≡ some o)
        × (o.written ≡ some w)
        × (check_health socket_path tcp_port (reached (take n w)) ≡ healthy)
  health_check_passes m ctx socket_path tcp_port n h l k =
      let (w, e, begins) = health_text_ok m ctx in
      (
        health_outcome m ctx,
        w,
        health_answered m ctx h,
        e,
        check_health-judge socket_path tcp_port (take n w) l
            ∙ judge_ok (take n w) (starts_with-take (codes "HTTP/1.1 200") w n begins k),
      )
