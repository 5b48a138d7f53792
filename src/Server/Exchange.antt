-- ===== src/Server/Exchange.antt =====
-- One exchange from the client's request to the bytes of the reply.
use nshgeoip.Prelude.{
  ltb, length, All, Bytes, codes, starts_with, equal, contains, ℕ, ◌≤◌, ◌≡◌, refl, sym, ap, ◌∙◌,
  true, false, not, some, List, [], ◌∷◌, ◌++◌, append-nil, append_assoc, arith,
}
use nshgeoip.External.{External}
use nshgeoip.Http.Request.{negotiate_format, HttpRequest, ResponseFormat}
use nshgeoip.Http.Request.Render.{
  crlf, render_others, render_line, accept_lines, render_request, IsOther, IsRequest,
}
use nshgeoip.Http.Request.RoundTrip.{parse_http_request-render_request}
use nshgeoip.Http.Response.{build_http_response, HttpResponse}
use nshgeoip.Http.ReadHead.{head_end, read_http_head, Event, receives}
use nshgeoip.Metrics.{
  route, record_request, record_response, Metrics, Route, lookup_path, health_path, metrics_path,
  other_path,
}
use nshgeoip.Server.Connection.{
  answer_route, is_head, answer_request, reply, handle_request, handle_head, handle_connection,
  Context,
}

starts_with-append : (p rest : Bytes) → starts_with p (p ++ rest) ≡ true
starts_with-append [] rest = refl
starts_with-append (c ∷ p) rest = ground (arith, starts_with-append p rest)

contains-append : (needle a rest : Bytes) → contains needle (a ++ (needle ++ rest)) ≡ true
unfolding contains
contains-append [] [] [] = refl
contains-append [] [] (c ∷ rest) = refl
contains-append (n ∷ needle) [] rest = rw (starts_with-append (n ∷ needle) rest)
contains-append needle (c ∷ a) rest = ground (arith, contains-append needle a rest)

others_end :
    (others : List (Bytes × Bytes)) (value : Bytes)
    → (a : Bytes) × (render_others others (accept_lines value) ≡ a ++ head_end)
unfolding render_others accept_lines
others_end [] value = (codes "Accept: " ++ value, refl)
others_end ((n, v) ∷ others) value =
    let (a, e) = others_end others value in (n ++ (b':' ∷ (v ++ crlf a)), rw e (simp append_assoc))

render_request-head_end :
    (r : HttpRequest) (others : List (Bytes × Bytes))
    → contains head_end (render_request r others) ≡ true
unfolding render_request
render_request-head_end r others =
    let (a, e) = others_end others r.accept in
    rw e (
      ap (contains head_end) (sym (append_assoc (render_line r) (crlf a) head_end))
      ∙ ap (λ (t : Bytes). contains head_end ((render_line r ++ crlf a) ++ t))
          (sym (append-nil head_end))
      ∙ contains-append head_end (render_line r ++ crlf a) [])

le→ltb-false : {a b : ℕ} → a ≤ b → ltb b a ≡ false
le→ltb-false h = ground arith

module _ (ext : External) where
  -- A well-formed request that arrives within the size limit is answered as the request that the
  -- client meant, whatever other header lines it has: the reply is that of `answer_request` on it,
  -- without the body for HEAD.
  pub handle_connection_answers :
      (m : Metrics) (ctx : Context ext) (r : HttpRequest) (others : List (Bytes × Bytes))
      (later : List Event)
      → IsRequest r
      → All IsOther others
      → length (render_request r others) ≤ ctx.max_request_bytes
      → handle_connection ext m ctx (receives (render_request r others) ∷ later)
        ≡ some (reply ext (answer_request ext m ctx r) (not (is_head ext r.method)))
  unfolding handle_connection read_http_head
  handle_connection_answers m ctx r others later v o fits =
      rw (le→ltb-false fits, render_request-head_end r others)
        (rw (parse_http_request-render_request r others v o, handle_head) refl)

  answer_route_any :
      (m : Metrics) (ctx : Context ext) (r : HttpRequest) (a b : Bytes) (p : Route)
      (fmt : ResponseFormat)
      → answer_route ext m ctx (record r { method = a }) p fmt
        ≡ answer_route ext m ctx (record r { method = b }) p fmt
  unfolding answer_route
  answer_route_any m ctx r a b lookup_path fmt = refl
  answer_route_any m ctx r a b health_path fmt = refl
  answer_route_any m ctx r a b metrics_path fmt = refl
  answer_route_any m ctx r a b other_path fmt = refl

  -- HEAD is answered as GET is: the same counters and the same response, of which only
  -- `Content-Type` and the body are left out.
  pub head_like_get :
      (m : Metrics) (ctx : Context ext) (r : HttpRequest)
      → let get = record r { method = codes "GET" } in
        let head = record r { method = codes "HEAD" } in
        let resp = (answer_request ext m ctx get).1 in
        ((handle_request ext m ctx (some head)).counters
          ≡ (handle_request ext m ctx (some get)).counters)
        × ((handle_request ext m ctx (some get)).written ≡ some (build_http_response resp true))
        × ((handle_request ext m ctx (some head)).written ≡ some (build_http_response resp false))
  unfolding handle_request answer_request equal
  head_like_get m ctx r =
      let same =
        answer_route_any (record_request m r.path) ctx r (codes "HEAD") (codes "GET") (route r.path)
          (negotiate_format r.accept) in
      (
        ap (λ (a : Metrics × HttpResponse). record_response a.0 a.1.status) same,
        refl,
        ap (λ (a : Metrics × HttpResponse). some (build_http_response a.1 false)) same,
      )
