-- ===== src/Http/Request/Render.antt =====
-- A client that writes requests: the reference against which the parser is proved.
use nshgeoip.Prelude.{
  All, Bytes, codes, is_empty, Without, starts_with, equal, ◌≡◌, true, false, List, [], ◌∷◌, ◌++◌,
}
use nshgeoip.Http.Chars.{trim_spaces, to_lower}
use nshgeoip.Http.Percent.RoundTrip.{IsByte, percent_encode}
use nshgeoip.Http.Request.{all_upper, HttpRequest}

abbrev pub crlf : Bytes → Bytes
crlf rest = 13 ∷ 10 ∷ rest

abbrev pub render_pair : Bytes × Bytes → Bytes
render_pair (k, v) = percent_encode k ++ b'=' ∷ percent_encode v

unfoldable pub render_pairs : List (Bytes × Bytes) → Bytes
render_pairs [] = []
render_pairs (p ∷ []) = render_pair p
render_pairs (p ∷ q ∷ ps) = render_pair p ++ b'&' ∷ render_pairs (q ∷ ps)

abbrev pub render_query : List (Bytes × Bytes) → Bytes
render_query [] = []
render_query (p ∷ ps) = b'?' ∷ render_pairs (p ∷ ps)

-- Any other header lines stand in front of `Accept`.
unfoldable pub render_others : List (Bytes × Bytes) → Bytes → Bytes
render_others [] rest = rest
render_others ((name, value) ∷ hs) rest = name ++ (b':' ∷ (value ++ crlf (render_others hs rest)))

unfoldable pub render_target : HttpRequest → Bytes
render_target r = percent_encode r.path ++ render_query r.query

unfoldable pub render_line : HttpRequest → Bytes
render_line r = r.method ++ (b' ' ∷ (render_target r ++ (b' ' ∷ codes "HTTP/1.1")))

-- The `Accept` line and the empty line that ends the headers.
unfoldable pub accept_lines : Bytes → Bytes
accept_lines value = codes "Accept: " ++ (value ++ crlf (crlf []))

unfoldable pub render_request : HttpRequest → List (Bytes × Bytes) → Bytes
render_request r others = render_line r ++ crlf (render_others others (accept_lines r.accept))

abbrev pub IsPair : Bytes × Bytes → Type 0
IsPair kv = All IsByte kv.0 × All IsByte kv.1

-- A header line that is not `Accept` and stays on its line.
pub record IsOther (h : Bytes × Bytes) : Type 0 where
  pub no_colon : Without b':' h.0
  pub name_line : Without 13 h.0
  pub value_line : Without 13 h.1
  pub not_accept : equal (to_lower (trim_spaces h.0)) (codes "accept") ≡ false

-- The requests that can be written: an upper case method, a path from '/' on and parameters of
-- any bytes but NUL, and a trimmed `Accept` value without CR.
pub record IsRequest (r : HttpRequest) : Type 0 where
  pub method_given : is_empty r.method ≡ false
  pub method_upper : all_upper r.method ≡ true
  pub path_bytes : All IsByte r.path
  pub path_slash : starts_with (codes "/") r.path ≡ true
  pub query_bytes : All IsPair r.query
  pub accept_line : Without 13 r.accept
  pub accept_trimmed : trim_spaces r.accept ≡ r.accept
