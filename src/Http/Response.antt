-- ===== src/Http/Response.antt =====
-- src/http.cpp: `build_http_response` and `make_error_response`.
pub mod Framing
use nshgeoip.Prelude.{
  ◌==◌, if◌then◌else◌, length, Bytes, codes, to_string, ℕ, Bool, List, [], ◌∷◌, ◌++◌,
}
use nshgeoip.Text.{json_escape}
use nshgeoip.Http.Request.{ResponseFormat, json, text, prometheus}

pub record HttpResponse : Type 0 where
  pub status : ℕ
  pub format : ResponseFormat
  pub headers : List (Bytes × Bytes)
  pub body : Bytes

-- The first switch of `build_http_response`.
unfoldable pub reason_phrase : ℕ → Bytes
reason_phrase status =
    if status == 200
    then codes "OK"
    else if status == 400
    then codes "Bad Request"
    else if status == 404
    then codes "Not Found"
    else if status == 405
    then codes "Method Not Allowed"
    else if status == 500
    then codes "Internal Server Error"
    else codes "Unknown"

unfoldable pub content_type : ResponseFormat → Bytes
content_type json = codes "application/json"
content_type text = codes "text/plain; charset=utf-8"
content_type prometheus = codes "text/plain; version=0.0.4; charset=utf-8"

abbrev pub crlf : Bytes → Bytes
crlf rest = 13 ∷ 10 ∷ rest

-- `oss << name << ": " << value << "\r\n"`.
abbrev pub field : Bytes → Bytes → Bytes → Bytes
field name value rest = name ++ (b':' ∷ b' ' ∷ (value ++ crlf rest))

-- The loop over `resp.headers`.
unfoldable pub fields : List (Bytes × Bytes) → Bytes → Bytes
fields [] rest = rest
fields ((name, value) ∷ hs) rest = field name value (fields hs rest)

abbrev content_type_field : HttpResponse → Bool → Bytes → Bytes
content_type_field resp include_body rest =
    if include_body then field (codes "Content-Type") (content_type resp.format) rest else rest

unfoldable pub build_http_response : HttpResponse → Bool → Bytes
build_http_response resp include_body =
    codes "HTTP/1.1 "
    ++ (to_string resp.status
        ++ (b' '
            ∷ (reason_phrase resp.status
                ++ crlf (
                    content_type_field resp include_body (
                      field (codes "Content-Length") (to_string (length resp.body)) (
                        field (codes "Connection") (codes "close") (
                          fields resp.headers (crlf (if include_body then resp.body else [])))))))))

unfoldable pub make_error_response : ℕ → Bytes → ResponseFormat → HttpResponse
make_error_response status message json = record {
  status = status;
  format = json;
  headers = [];
  body = codes "{\"error\":\"" ++ (json_escape message ++ codes "\"}");
}
make_error_response status message format = record {
  status = status;
  format = format;
  headers = [];
  body = codes "error=" ++ (message ++ 10 ∷ []);
}
