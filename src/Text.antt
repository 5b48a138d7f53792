-- ===== src/Text.antt =====
-- src/text_util.cpp: the escaping of JSON string literals and the cleaning of header values.
pub mod Json
pub mod Clean
use nshgeoip.Prelude.{
  ltb, ◌==◌, if◌then◌else◌, Bytes, ℕ, ◌+◌, ◌-◌, ◌/◌, ◌%◌, Bool, ◌||◌, [], ◌∷◌, ◌++◌,
}

-- A digit of `%x`.
unfoldable pub hex_digit : ℕ → ℕ
hex_digit d = if ltb d 10 then b'0' + d else b'a' + (d - 10)

-- `snprintf("\\u%04x", c)` for one byte.
abbrev pub hex_escape : ℕ → Bytes
hex_escape c = b'\\' ∷ b'u' ∷ b'0' ∷ b'0' ∷ hex_digit (c / 16) ∷ hex_digit (c % 16) ∷ []

-- What the switch of `json_escape` appends for one byte.
unfoldable pub json_escape_byte : ℕ → Bytes
json_escape_byte c =
    if c == b'"'
    then b'\\' ∷ b'"' ∷ []
    else if c == b'\\'
    then b'\\' ∷ b'\\' ∷ []
    else if c == 8
    then b'\\' ∷ b'b' ∷ []
    else if c == 12
    then b'\\' ∷ b'f' ∷ []
    else if c == 10
    then b'\\' ∷ b'n' ∷ []
    else if c == 13
    then b'\\' ∷ b'r' ∷ []
    else if c == 9
    then b'\\' ∷ b't' ∷ []
    else if ltb c 0x20
    then hex_escape c
    else c ∷ []

unfoldable pub json_escape : Bytes → Bytes
json_escape [] = []
json_escape (c ∷ cs) = json_escape_byte c ++ json_escape cs

-- The test of `sanitize_header_value` that skips a byte.
abbrev pub is_rejected : ℕ → Bool
is_rejected c = c == 13 || c == 10 || ltb c 0x20 || c == 0x7f

unfoldable pub sanitize_header_value : Bytes → Bytes
sanitize_header_value [] = []
sanitize_header_value (c ∷ cs) =
    if is_rejected c then sanitize_header_value cs else c ∷ sanitize_header_value cs
