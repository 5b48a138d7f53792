-- ===== src/Http/Response/Framing.antt =====
-- What a client makes of the bytes that `build_http_response` writes.
use nshgeoip.Prelude.{
  ◌==◌, if◌then◌else◌, length, length-append, All, All-append, All-mono, Bytes, codes, is_empty,
  Without, split_first-Without, to_string-IsDigit, IsDigit, to_string, split_first, ℕ, zero, suc,
  ◌≤◌, ◌<◌, ◌≡◌, refl, sym, ap, ◌∙◌, ◌≢◌, Bool, true, false, Option, none, some, List, [], ◌∷◌,
  ◌++◌, append_assoc, arith,
}
use nshgeoip.Http.Chars.{split_crlf}
use nshgeoip.Http.Chars.Split.{split_crlf-Without}
use nshgeoip.Http.Request.{ResponseFormat, json, text, prometheus}
use nshgeoip.Http.Response.{
  reason_phrase, content_type, crlf, field, fields, build_http_response, HttpResponse,
}

pub record Message : Type 0 where
  pub status_line : Bytes
  pub headers : List (Bytes × Bytes)
  pub body : Bytes

abbrev drop_space : Bytes → Bytes
drop_space [] = []
drop_space (c ∷ cs) = if c == b' ' then cs else c ∷ cs

abbrev add_field :
    Bytes × Bytes → Option (List (Bytes × Bytes) × Bytes) → Option (List (Bytes × Bytes) × Bytes)
add_field f none = none
add_field (n, v) (some (fs, rest)) = some ((n, drop_space v) ∷ fs, rest)

-- The header lines up to the empty one, each at its first colon, and the text behind them.
pub read_fields : ℕ → Bytes → Option (List (Bytes × Bytes) × Bytes)
read_fields zero s = none
read_fields (suc fuel) s = elim (split_crlf s) [
  | none ↦ none
  | some ([], rest) ↦ some ([], rest)
  | some (c ∷ line, rest) ↦ elim (split_first b':' (c ∷ line)) [
    | none ↦ none
    | some f ↦ add_field f (read_fields fuel rest)
  ]
]

abbrev with_status : Bytes → Option (List (Bytes × Bytes) × Bytes) → Option Message
with_status line none = none
with_status line (some (fs, rest)) = some (record { status_line = line; headers = fs; body = rest })

pub read_response : Bytes → Option Message
read_response s = elim (split_crlf s) [
  | none ↦ none
  | some (line, rest) ↦ with_status line (read_fields (length s) rest)
]

-- A header that stays on its line and keeps its name.
abbrev pub IsField : Bytes × Bytes → Type 0
IsField h = (is_empty h.0 ≡ false) × Without b':' h.0 × Without 13 h.0 × Without 13 h.1

read_fields_line :
    (fuel : ℕ) (name value rest : Bytes)
    → IsField (name, value)
    → read_fields (suc fuel) (field name value rest)
      ≡ add_field (name, b' ' ∷ value) (read_fields fuel rest)
unfolding read_fields
read_fields_line fuel [] value rest h = cc
read_fields_line fuel (c ∷ name) value rest h =
    rw (sym (append_assoc (c ∷ name) (b':' ∷ b' ' ∷ value) (crlf rest))) (
      rw
        (
          split_crlf-Without ((c ∷ name) ++ (b':' ∷ b' ' ∷ value)) rest (
              All-append (λ x. x ≢ 13) (c ∷ name) (b':' ∷ b' ' ∷ value) h.2
                (omega arith, (omega arith, h.3))),
          read_fields,
        )
        (rw (split_first-Without b':' (c ∷ name) (b' ' ∷ value) h.1, read_fields)))

read_fields_end : (fuel : ℕ) (rest : Bytes) → read_fields (suc fuel) (crlf rest) ≡ some ([], rest)
unfolding read_fields split_crlf
read_fields_end fuel rest = refl

read_fields-fields :
    (hs : List (Bytes × Bytes)) (fuel : ℕ) (rest : Bytes)
    → All IsField hs
    → length hs < fuel
    → read_fields fuel (fields hs (crlf rest)) ≡ some (hs, rest)
unfolding fields
read_fields-fields hs zero rest h k = absurd (omega arith)
read_fields-fields [] (suc fuel) rest h k = read_fields_end fuel rest
read_fields-fields ((n, v) ∷ hs) (suc fuel) rest h k =
    read_fields_line fuel n v _ h.0
    ∙ ap (add_field (n, b' ' ∷ v)) (read_fields-fields hs fuel rest h.1 (omega arith))

length-fields : (hs : List (Bytes × Bytes)) (rest : Bytes) → length hs ≤ length (fields hs rest)
unfolding fields
length-fields [] rest = omega arith
length-fields ((n, v) ∷ hs) rest = omega (
  arith,
  length-append n (b':' ∷ b' ' ∷ (v ++ crlf (fields hs rest))),
  length-append v (crlf (fields hs rest)),
  length-fields hs rest,
)

pub status_line : HttpResponse → Bytes
status_line resp =
    codes "HTTP/1.1 " ++ (to_string resp.status ++ (b' ' ∷ reason_phrase resp.status))

-- The header fields of the message, the automatic ones first.
abbrev pub sent_headers : HttpResponse → Bool → List (Bytes × Bytes)
sent_headers resp include_body =
    (if include_body then (codes "Content-Type", content_type resp.format) ∷ [] else [])
    ++ (codes "Content-Length", to_string (length resp.body))
      ∷ (codes "Connection", codes "close")
      ∷ resp.headers

abbrev sent_body : HttpResponse → Bool → Bytes
sent_body resp include_body = if include_body then resp.body else []

build_http_response-fields :
    (resp : HttpResponse) (b : Bool)
    → build_http_response resp b
      ≡ status_line resp ++ crlf (fields (sent_headers resp b) (crlf (sent_body resp b)))
unfolding build_http_response status_line fields
build_http_response-fields resp true = simp append_assoc
build_http_response-fields resp false = simp append_assoc

digits-Without : (c n : ℕ) → c < b'0' → Without c (to_string n)
digits-Without c n h =
    All-mono IsDigit (λ x. x ≢ c) (λ x d. omega arith) (to_string n) (to_string-IsDigit n)

reason_phrase-line : (s : ℕ) → Without 13 (reason_phrase s)
unfolding reason_phrase
reason_phrase-line s = ground arith

status_line-line : (resp : HttpResponse) → Without 13 (status_line resp)
unfolding status_line
status_line-line resp =
    let P = λ (x : ℕ). x ≢ 13 in
    All-append P (codes "HTTP/1.1 ") (to_string resp.status ++ (b' ' ∷ reason_phrase resp.status))
      (omega arith)
      (All-append P (to_string resp.status) (b' ' ∷ reason_phrase resp.status)
        (digits-Without 13 resp.status (omega arith)) (omega arith, reason_phrase-line resp.status))

content_type-line : (f : ResponseFormat) → Without 13 (content_type f)
unfolding content_type
content_type-line json = omega arith
content_type-line text = omega arith
content_type-line prometheus = omega arith

sent_headers-IsField :
    (resp : HttpResponse) (b : Bool) → All IsField resp.headers → All IsField (sent_headers resp b)
sent_headers-IsField resp b h = elim b as (λ b. All IsField (sent_headers resp b)) [
  | true ↦ ((refl, omega arith, omega arith, content_type-line resp.format), rest)
  | false ↦ rest
]
  where
    rest : All IsField (sent_headers resp false)
    rest = (
      (refl, omega arith, omega arith, digits-Without 13 (length resp.body) (omega arith)),
      ((refl, omega arith, omega arith, omega arith), h),
    )

-- A client that reads the status line, the header lines up to the empty one and takes the rest
-- as the body sees exactly the status, the fields and the body of the response: neither a header
-- value nor the body can shift the boundary. `Content-Length` is the size of the whole body, also
-- where HEAD leaves the body and `Content-Type` out.
pub read_response-build_http_response :
    (resp : HttpResponse) (include_body : Bool)
    → All IsField resp.headers
    → read_response (build_http_response resp include_body)
      ≡ some (record {
        status_line = status_line resp;
        headers = sent_headers resp include_body;
        body = if include_body then resp.body else [];
      })
unfolding read_response
read_response-build_http_response resp b h =
    let hs = sent_headers resp b in
    let rest = fields hs (crlf (sent_body resp b)) in
    let total = status_line resp ++ crlf rest in
    let enough : length hs < length total = omega (
      arith,
      length-append (status_line resp) (crlf rest),
      length-fields hs (crlf (sent_body resp b)),
    ) in
    rw build_http_response-fields (
      rw (split_crlf-Without (status_line resp) rest (status_line-line resp), read_response)
        (rw (
          read_fields-fields hs (length total) (sent_body resp b) (sent_headers-IsField resp b h)
            enough)))
