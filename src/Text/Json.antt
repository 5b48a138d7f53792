-- ===== src/Text/Json.antt =====
-- Reading back what `json_escape` wrote: an automaton for the body of a JSON string literal
-- (RFC 8259, section 7), which stops behind the closing quote. A `\u` escape stands for a code
-- point of the basic plane, written in UTF-8; surrogates are not paired.
use nshgeoip.Prelude.{
  ltb, leb, ◌==◌, if◌then◌else◌, Bytes, ℕ, zero, suc, ◌+◌, ◌-◌, ◌*◌, ◌/◌, ◌%◌, ◌<◌, ◌≡◌, refl, ap,
  ◌∙◌, ◌&&◌, ◌||◌, Option, none, some, [], ◌∷◌, ◌++◌, append-nil, append_assoc, arith,
}
use nshgeoip.Text.{hex_digit, hex_escape, json_escape_byte, json_escape}

pub data ReadMode : Type 0 where
  plain : ReadMode
  escaped : ReadMode
  unicode : ℕ → ℕ → ReadMode

pub data ReadStep : Type 0 where
  closing : ReadStep
  invalid : ReadStep
  reads : ReadMode → Bytes → ReadStep

hex_value : ℕ → Option ℕ
hex_value h =
    if leb b'0' h && leb h b'9'
    then some (h - b'0')
    else if leb b'a' h && leb h b'f'
    then some (h - b'a' + 10)
    else if leb b'A' h && leb h b'F'
    then some (h - b'A' + 10)
    else none

utf_8 : ℕ → Bytes
utf_8 v =
    if ltb v 0x80
    then v ∷ []
    else if ltb v 0x800
    then (0xc0 + v / 64) ∷ (0x80 + v % 64) ∷ []
    else (0xe0 + v / 4096) ∷ (0x80 + v / 64 % 64) ∷ (0x80 + v % 64) ∷ []

-- `left` more digits follow; `v` is the value of those read.
unicode_step : ℕ → ℕ → Option ℕ → ReadStep
unicode_step left v none = invalid
unicode_step zero v (some d) = reads plain (utf_8 (v * 16 + d))
unicode_step (suc left) v (some d) = reads (unicode left (v * 16 + d)) []

escape_step : ℕ → ReadStep
escape_step c =
    if c == b'"' || c == b'\\' || c == b'/'
    then reads plain (c ∷ [])
    else if c == b'b'
    then reads plain (8 ∷ [])
    else if c == b'f'
    then reads plain (12 ∷ [])
    else if c == b'n'
    then reads plain (10 ∷ [])
    else if c == b'r'
    then reads plain (13 ∷ [])
    else if c == b't'
    then reads plain (9 ∷ [])
    else if c == b'u'
    then reads (unicode 3 0) []
    else invalid

unfoldable pub read_step : ReadMode → ℕ → ReadStep
unfolding hex_value utf_8 unicode_step escape_step
read_step plain c =
    if c == b'"'
    then closing
    else if c == b'\\'
    then reads escaped []
    else if ltb c 0x20
    then invalid
    else reads plain (c ∷ [])
read_step escaped c = escape_step c
read_step (unicode left v) c = unicode_step left v (hex_value c)

-- The value of the literal, and the text behind its closing quote.
unfoldable pub read_string : ReadMode → Bytes → Bytes → Option (Bytes × Bytes)
read_string m out [] = none
read_string m out (c ∷ cs) = elim (read_step m c) [
  | closing ↦ some (out, cs)
  | invalid ↦ none
  | reads m' b ↦ read_string m' (out ++ b) cs
]

hex_digit_value : (d : ℕ) → d < 16 → hex_value (hex_digit d) ≡ some d
unfolding hex_value hex_digit
hex_digit_value d h = ground arith

read_string-hex_escape :
    (c : ℕ) (out rest : Bytes)
    → c < 0x20
    → read_string plain out (hex_escape c ++ rest) ≡ read_string plain (out ++ c ∷ []) rest
unfolding read_string read_step
read_string-hex_escape c out rest h =
    ground (arith, hex_digit_value (c / 16), hex_digit_value (c % 16), append-nil out)

read_string-json_escape_byte :
    (c : ℕ) (out rest : Bytes)
    → read_string plain out (json_escape_byte c ++ rest) ≡ read_string plain (out ++ c ∷ []) rest
unfolding read_string read_step json_escape_byte
read_string-json_escape_byte c out rest =
    ground (arith, append-nil out, read_string-hex_escape c out rest)

-- A JSON reader that stands behind the opening quote gets back exactly the bytes that were
-- escaped, and stops at the quote that the program wrote: no byte of `s` ends the literal early.
pub read_string-json_escape :
    (s out rest : Bytes)
    → read_string plain out (json_escape s ++ b'"' ∷ rest) ≡ some (out ++ s, rest)
unfolding json_escape
read_string-json_escape [] out rest = rw append-nil (unfold read_string read_step in refl)
read_string-json_escape (c ∷ s) out rest = rw append_assoc (
    read_string-json_escape_byte c out _
    ∙ read_string-json_escape s (out ++ c ∷ []) rest
    ∙ ap (λ t. some (t, rest)) (append_assoc out (c ∷ []) s))
