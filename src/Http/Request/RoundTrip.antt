-- ===== src/Http/Request/RoundTrip.antt =====
-- The parser reads back every request that the reference client writes.
use nshgeoip.Http.Request.Target.{is_empty-append, read_parts-rendered}
use nshgeoip.Http.Percent.RoundTrip.{
  IsByte, is_unreserved, percent_encode, IsEncoded, percent_encode-IsEncoded,
}
use nshgeoip.Prelude.{
  length, length-append, All, All-append, All-mono, Bytes, codes, is_empty, Without,
  split_first-Without, starts_with, equal, split_first, ℕ, zero, suc, ◌≤◌, ◌<◌, ◌≡◌, refl, sym, ap,
  ◌∙◌, ◌≢◌, true, false, some, List, [], ◌∷◌, ◌++◌, append_assoc, arith,
}
use nshgeoip.Http.Chars.{trim_left, trim_right, trim_spaces, split_crlf}
use nshgeoip.Http.Chars.Split.{split_crlf-Without, trim_spaces-space}
use nshgeoip.Http.Request.{
  all_upper, starts_with_slash, header_line, scan_headers, check_line, parse_http_request,
  HttpRequest,
}
use nshgeoip.Http.Request.Render.{
  crlf, render_pair, render_pairs, render_query, render_others, render_target, render_line,
  accept_lines, render_request, IsPair, IsOther, IsRequest,
}

header_line_other :
    (name value accept : Bytes)
    → IsOther (name, value)
    → header_line (name ++ b':' ∷ value) accept ≡ accept
unfolding header_line
header_line_other name value accept h =
    rw (split_first-Without b':' name value h.no_colon, header_line) (rw h.not_accept)

header_line_accept :
    (value accept : Bytes) → header_line (codes "Accept:" ++ value) accept ≡ trim_spaces value
unfolding header_line trim_spaces trim_left trim_right split_first equal
header_line_accept value accept = refl

scan_line :
    (fuel : ℕ) (line rest accept : Bytes)
    → is_empty line ≡ false
    → Without 13 line
    → scan_headers (suc fuel) (line ++ crlf rest) accept
      ≡ scan_headers fuel rest (header_line line accept)
unfolding scan_headers
scan_line fuel [] rest accept e h = cc
scan_line fuel (c ∷ line) rest accept e h = rw (split_crlf-Without (c ∷ line) rest h, scan_headers)

scan_end : (fuel : ℕ) (rest accept : Bytes) → scan_headers fuel (crlf rest) accept ≡ accept
unfolding scan_headers split_crlf
scan_end zero rest accept = refl
scan_end (suc fuel) rest accept = refl

scan_accept :
    (fuel : ℕ) (value accept : Bytes)
    → Without 13 value
    → trim_spaces value ≡ value
    → scan_headers (suc fuel) (accept_lines value) accept ≡ value
unfolding accept_lines
scan_accept fuel value accept h t =
    scan_line fuel (codes "Accept: " ++ value) (crlf []) accept refl
      (All-append (λ x. x ≢ 13) (codes "Accept: ") value (omega arith) h)
    ∙ scan_end fuel [] _
    ∙ header_line_accept (b' ' ∷ value) accept
    ∙ trim_spaces-space value
    ∙ t

scan_other :
    (fuel : ℕ) (name value rest accept : Bytes)
    → IsOther (name, value)
    → scan_headers (suc fuel) (name ++ (b':' ∷ (value ++ crlf rest))) accept
      ≡ scan_headers fuel rest accept
scan_other fuel name value rest accept h =
    ap (λ t. scan_headers (suc fuel) t accept) (sym (append_assoc name (b':' ∷ value) (crlf rest)))
    ∙ scan_line fuel (name ++ b':' ∷ value) rest accept (is_empty-append name b':' value)
        (All-append (λ x. x ≢ 13) name (b':' ∷ value) h.name_line ((λ e. cc), h.value_line))
    ∙ ap (scan_headers fuel rest) (header_line_other name value accept h)

-- Other header lines leave `Accept` alone.
scan_others :
    (others : List (Bytes × Bytes)) (fuel : ℕ) (value accept : Bytes)
    → All IsOther others
    → Without 13 value
    → trim_spaces value ≡ value
    → length others < fuel
    → scan_headers fuel (render_others others (accept_lines value)) accept ≡ value
unfolding render_others
scan_others others zero value accept o h t k = absurd (omega arith)
scan_others [] (suc fuel) value accept o h t k = scan_accept fuel value accept h t
scan_others ((name, v) ∷ others) (suc fuel) value accept o h t k =
    scan_other fuel name v _ accept o.0 ∙ scan_others others fuel value accept o.1 h t (omega arith)

length-render_others :
    (others : List (Bytes × Bytes)) (value : Bytes)
    → length others < length (render_others others (accept_lines value))
unfolding render_others accept_lines
length-render_others [] value = omega arith
length-render_others ((name, v) ∷ others) value = omega (
  arith,
  length-append name (b':' ∷ (v ++ crlf (render_others others (accept_lines value)))),
  length-append v (crlf (render_others others (accept_lines value))),
  length-render_others others value,
)

target_slash :
    (path rest : Bytes)
    → starts_with (codes "/") path ≡ true
    → (is_empty (percent_encode path ++ rest) ≡ false)
      × (starts_with_slash (percent_encode path ++ rest) ≡ true)
unfolding percent_encode is_unreserved
target_slash [] rest h = cc
target_slash (c ∷ cs) rest h = ground arith

check_line-rendered :
    (r : HttpRequest) (others : List (Bytes × Bytes))
    → IsRequest r
    → All IsOther others
    → check_line r.method
        (render_target r)
        (codes "HTTP/1.1")
        (render_others others (accept_lines r.accept))
      ≡ some r
unfolding check_line render_target equal
check_line-rendered r others v o =
    let slash = target_slash r.path (render_query r.query) v.path_slash in
    rw
      (
        v.method_given,
        slash.0,
        slash.1,
        v.method_upper,
        scan_others others _ r.accept [] o v.accept_line v.accept_trimmed
            (length-render_others others r.accept),
      )
      (read_parts-rendered r.method r.path r.accept r.query v.path_bytes v.query_bytes)

-- Bytes that end no token and no line.
abbrev IsVisible : ℕ → Type 0
IsVisible c = 0x20 < c

IsVisible-Without : (c : ℕ) (s : Bytes) → c ≤ 0x20 → All IsVisible s → Without c s
IsVisible-Without c s h = All-mono IsVisible (λ x. x ≢ c) (λ x v. omega arith) s

encode-IsVisible : (s : Bytes) → All IsByte s → All IsVisible (percent_encode s)
encode-IsVisible s h = All-mono IsEncoded IsVisible (λ x e. e.0) _ (percent_encode-IsEncoded s h)

render_pair-IsVisible : (kv : Bytes × Bytes) → IsPair kv → All IsVisible (render_pair kv)
render_pair-IsVisible (k, v) h =
    All-append IsVisible _ _ (encode-IsVisible k h.0) (omega arith, encode-IsVisible v h.1)

render_pairs-IsVisible :
    (ps : List (Bytes × Bytes)) → All IsPair ps → All IsVisible (render_pairs ps)
unfolding render_pairs
render_pairs-IsVisible [] h = tt
render_pairs-IsVisible (p ∷ []) h = render_pair-IsVisible p h.0
render_pairs-IsVisible (p ∷ q ∷ ps) h =
    All-append IsVisible _ _ (render_pair-IsVisible p h.0)
      (omega arith, render_pairs-IsVisible (q ∷ ps) h.1)

render_query-IsVisible :
    (ps : List (Bytes × Bytes)) → All IsPair ps → All IsVisible (render_query ps)
render_query-IsVisible [] h = tt
render_query-IsVisible (p ∷ ps) h = (omega arith, render_pairs-IsVisible (p ∷ ps) h)

render_target-IsVisible : (r : HttpRequest) → IsRequest r → All IsVisible (render_target r)
unfolding render_target
render_target-IsVisible r v =
    All-append IsVisible _ _ (encode-IsVisible r.path v.path_bytes)
      (render_query-IsVisible r.query v.query_bytes)

all_upper-IsVisible : (m : Bytes) → all_upper m ≡ true → All IsVisible m
unfolding all_upper
all_upper-IsVisible [] h = tt
all_upper-IsVisible (c ∷ m) h = ground (arith, all_upper-IsVisible m)

render_line-Without : (r : HttpRequest) → IsRequest r → Without 13 (render_line r)
unfolding render_line
render_line-Without r v =
    let P = λ (x : ℕ). x ≢ 13 in
    All-append P r.method _
      (IsVisible-Without 13 _ (omega arith) (all_upper-IsVisible _ v.method_upper))
      (
        omega arith,
        All-append P (render_target r) _
            (IsVisible-Without 13 _ (omega arith) (render_target-IsVisible r v)) (omega arith),
      )

split_line :
    (r : HttpRequest)
    → IsRequest r
    → (split_first b' ' (render_line r)
        ≡ some (r.method, render_target r ++ b' ' ∷ codes "HTTP/1.1"))
      × (split_first b' ' (render_target r ++ b' ' ∷ codes "HTTP/1.1")
          ≡ some (render_target r, codes "HTTP/1.1"))
unfolding render_line
split_line r v = (
  split_first-Without b' ' r.method _
      (IsVisible-Without b' ' _ (omega arith) (all_upper-IsVisible _ v.method_upper)),
  split_first-Without b' ' (render_target r) _
      (IsVisible-Without b' ' _ (omega arith) (render_target-IsVisible r v)),
)

-- Every well-formed request is read back field by field, whatever other header lines stand in
-- front of its `Accept` line.
pub parse_http_request-render_request :
    (r : HttpRequest) (others : List (Bytes × Bytes))
    → IsRequest r
    → All IsOther others
    → parse_http_request (render_request r others) ≡ some r
unfolding parse_http_request render_request
parse_http_request-render_request r others v o =
    rw
      (
        split_crlf-Without _ (render_others others (accept_lines r.accept))
            (render_line-Without r v),
        parse_http_request,
      )
      (rw ((split_line r v).0, parse_http_request)
        (rw ((split_line r v).1, parse_http_request) (check_line-rendered r others v o)))
