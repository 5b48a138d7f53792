-- ===== src/Http/Request.antt =====
-- src/http.cpp: `parse_http_request`, `find_query_param` and the choice of a representation.
pub mod Fuel
pub mod Render
pub mod Target
pub mod RoundTrip
use nshgeoip.Prelude.{
  leb, ◌==◌, if◌then◌else◌, length, Bytes, codes, is_empty, equal, split_first, contains, ℕ, zero,
  suc, Bool, true, false, not, ◌&&◌, ◌||◌, Option, none, some, List, [], ◌∷◌,
}
use nshgeoip.Http.Chars.{trim_spaces, to_lower, split_crlf}
use nshgeoip.Http.Percent.{percent_decode}

pub record HttpRequest : Type 0 where
  pub method : Bytes
  pub path : Bytes
  pub query : List (Bytes × Bytes)
  pub accept : Bytes

abbrev pub is_upper : ℕ → Bool
is_upper c = leb b'A' c && leb c b'Z'

unfoldable pub all_upper : Bytes → Bool
all_upper [] = true
all_upper (c ∷ cs) = is_upper c && all_upper cs

abbrev pub starts_with_slash : Bytes → Bool
starts_with_slash [] = false
starts_with_slash (c ∷ cs) = c == b'/'

-- What one header line makes of `req.accept`.
unfoldable pub header_line : Bytes → Bytes → Bytes
header_line line accept = elim (split_first b':' line) [
  | none ↦ accept
  | some (name, value) ↦
      if equal (to_lower (trim_spaces name)) (codes "accept") then trim_spaces value else accept
]

-- The header loop from `header_pos` on. A line takes two bytes at least, so the length of the
-- text is fuel enough (Http/Request/Fuel).
unfoldable pub scan_headers : ℕ → Bytes → Bytes → Bytes
scan_headers zero s accept = accept
scan_headers (suc fuel) s accept = elim (split_crlf s) [
  | none ↦ accept
  | some ([], rest) ↦ accept
  | some (c ∷ line, rest) ↦ scan_headers fuel rest (header_line (c ∷ line) accept)
]

-- The key and value of one pair: at its first '=', or the whole text and an empty value.
abbrev pub split_pair : Bytes → Bytes × Bytes
split_pair pair = elim (split_first b'=' pair) [ none ↦ (pair, []) | some kv ↦ kv ]

abbrev pub both : Option Bytes → Option Bytes → Option (Bytes × Bytes)
both (some k) (some v) = some (k, v)
both (some k) none = none
both none _ = none

abbrev pub push :
    Option (Bytes × Bytes) → Option (List (Bytes × Bytes)) → Option (List (Bytes × Bytes))
push (some p) (some ps) = some (p ∷ ps)
push (some p) none = none
push none _ = none

-- The part of the query loop that handles one pair; an empty one is skipped.
unfoldable pub decode_pair : Bytes → Option (List (Bytes × Bytes)) → Option (List (Bytes × Bytes))
decode_pair [] later = later
decode_pair (c ∷ cs) later =
    let kv = split_pair (c ∷ cs) in push (both (percent_decode kv.0) (percent_decode kv.1)) later

-- The query loop. Each round but the last drops an '&', so the length is fuel enough.
unfoldable pub parse_query : ℕ → Bytes → Option (List (Bytes × Bytes))
parse_query zero s = decode_pair s (some [])
parse_query (suc fuel) s = elim (split_first b'&' s) [
  | none ↦ decode_pair s (some [])
  | some (pair, rest) ↦ decode_pair pair (parse_query fuel rest)
]

-- `target` at its first '?'.
abbrev pub split_target : Bytes → Bytes × Bytes
split_target t = elim (split_first b'?' t) [ none ↦ (t, []) | some pq ↦ pq ]

-- The part behind the checks of the request line, on the encoded path and query.
unfoldable pub read_parts : Bytes → Bytes → Bytes × Bytes → Option HttpRequest
read_parts method accept (path_enc, query_enc) = elim (percent_decode path_enc) [
  | none ↦ none
  | some path ↦ elim (parse_query (length query_enc) query_enc) [
    | none ↦ none
    | some query ↦ some (record { method = method; path = path; query = query; accept = accept })
  ]
]

unfoldable pub check_line : Bytes → Bytes → Bytes → Bytes → Option HttpRequest
check_line method target version headers =
    if not (equal version (codes "HTTP/1.1")) && not (equal version (codes "HTTP/1.0"))
    then none
    else if is_empty method || is_empty target || not (starts_with_slash target)
    then none
    else if not (all_upper method)
    then none
    else read_parts method (scan_headers (length headers) headers []) (split_target target)

-- `none` is the result false.
unfoldable pub parse_http_request : Bytes → Option HttpRequest
parse_http_request raw = elim (split_crlf raw) [
  | none ↦ none
  | some (line, headers) ↦ elim (split_first b' ' line) [
    | none ↦ none
    | some (method, after) ↦ elim (split_first b' ' after) [
      | none ↦ none
      | some (target, version) ↦ check_line method target version headers
    ]
  ]
]

unfoldable pub find_param : List (Bytes × Bytes) → Bytes → Option Bytes
find_param [] key = none
find_param ((k, v) ∷ kvs) key = if equal k key then some v else find_param kvs key

abbrev pub find_query_param : HttpRequest → Bytes → Option Bytes
find_query_param req key = find_param req.query key

pub data ResponseFormat : Type 0 where
  json text prometheus : ResponseFormat

unfoldable pub accept_wants_json : Bytes → Bool
accept_wants_json accept = contains (codes "application/json") (to_lower accept)

unfoldable pub negotiate_format : Bytes → ResponseFormat
negotiate_format accept =
    if contains (codes "application/json") (to_lower accept)
    then json
    else if contains (codes "text/plain") (to_lower accept)
    then text
    else json
