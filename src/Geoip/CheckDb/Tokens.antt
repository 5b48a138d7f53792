-- ===== src/Geoip/CheckDb/Tokens.antt =====
-- A scanner for JSON texts, to read the report back: a string is a literal read by Text/Json, and a
-- number is a run of digits, signs and points.
use nshgeoip.Prelude.{
  leb, ◌==◌, if◌then◌else◌, All, All-mono, Bytes, to_string-IsDigit, to_string-ne-nil, IsDigit,
  to_string, ℕ, ◌≡◌, refl, ap, ◌∙◌, ◌≢◌, ◌&&◌, ◌||◌, Option, none, some, List, [], ◌∷◌, ◌++◌,
  append-nil, append_assoc, arith,
}
use nshgeoip.Text.{json_escape}
use nshgeoip.Text.Json.{
  read_step, read_string, read_string-json_escape, ReadMode, plain, ReadStep, closing, invalid,
  reads,
}

pub data Token : Type 0 where
  open_brace close_brace open_bracket close_bracket colon comma bad : Token
  text number : Bytes → Token

-- What a byte outside a string is; the end of the line is skipped.
pub data Start : Type 0 where
  punctuation : Token → Start
  quote digit blank other : Start

unfoldable pub start : ℕ → Start
start c =
    if c == b'{'
    then punctuation open_brace
    else if c == b'}'
    then punctuation close_brace
    else if c == b'['
    then punctuation open_bracket
    else if c == b']'
    then punctuation close_bracket
    else if c == b':'
    then punctuation colon
    else if c == b','
    then punctuation comma
    else if c == b'"'
    then quote
    else if c == 10
    then blank
    else if (leb b'0' c && leb c b'9') || c == b'-' || c == b'.'
    then digit
    else other

pub data LexMode : Type 0 where
  outside : LexMode
  inside : ReadMode → Bytes → LexMode
  in_number : Bytes → LexMode

unfoldable pub lex : LexMode → Bytes → List Token
lex outside [] = []
lex (inside m out) [] = bad ∷ []
lex (in_number n) [] = number n ∷ []
lex outside (c ∷ cs) = elim (start c) [
  | punctuation t ↦ t ∷ lex outside cs
  | quote ↦ lex (inside plain []) cs
  | digit ↦ lex (in_number (c ∷ [])) cs
  | blank ↦ lex outside cs
  | other ↦ bad ∷ []
]
lex (inside m out) (c ∷ cs) = elim (read_step m c) [
  | closing ↦ text out ∷ lex outside cs
  | invalid ↦ bad ∷ []
  | reads m' b ↦ lex (inside m' (out ++ b)) cs
]
lex (in_number n) (c ∷ cs) = elim (start c) [
  | punctuation t ↦ number n ∷ t ∷ lex outside cs
  | quote ↦ number n ∷ lex (inside plain []) cs
  | digit ↦ lex (in_number (n ++ c ∷ [])) cs
  | blank ↦ number n ∷ lex outside cs
  | other ↦ bad ∷ []
]

lex-inside :
    (m : ReadMode) (out s r rest : Bytes)
    → read_string m out s ≡ some (r, rest)
    → lex (inside m out) s ≡ text r ∷ lex outside rest
unfolding lex read_string
lex-inside m out [] r rest e = cc
lex-inside m out (c ∷ cs) r rest e =
    go (λ m' b. lex-inside m' (out ++ b) cs r rest) (read_step m c) e
  where
    go :
        ((m' : ReadMode) (b : Bytes)
          → read_string m' (out ++ b) cs ≡ some (r, rest)
          → lex (inside m' (out ++ b)) cs ≡ text r ∷ lex outside rest)
        → (x : ReadStep)
        → (elim x as (λ _. Option (Bytes × Bytes)) [
          | closing ↦ some (out, cs)
          | invalid ↦ none
          | reads m' b ↦ read_string m' (out ++ b) cs
        ])
          ≡ some (r, rest)
        → (elim x as (λ _. List Token) [
          | closing ↦ text out ∷ lex outside cs
          | invalid ↦ bad ∷ []
          | reads m' b ↦ lex (inside m' (out ++ b)) cs
        ])
          ≡ text r ∷ lex outside rest
    go k closing p = cc
    go k invalid p = cc
    go k (reads m' b) p = k m' b p

pub lex-json_escape :
    (s rest : Bytes)
    → lex (inside plain []) (json_escape s ++ b'"' ∷ rest) ≡ text s ∷ lex outside rest
lex-json_escape s rest = lex-inside plain [] _ s rest (read_string-json_escape s [] rest)

-- A text that the scanner takes for a number.
abbrev pub IsNumber : Bytes → Type 0
IsNumber s = (s ≢ []) × All (λ c. start c ≡ digit) s

in_number-lex :
    (n s rest : Bytes)
    → All (λ c. start c ≡ digit) s
    → lex (in_number n) (s ++ b',' ∷ rest) ≡ number (n ++ s) ∷ comma ∷ lex outside rest
unfolding lex start
in_number-lex n [] rest h = rw append-nil refl
in_number-lex n (c ∷ s) rest h =
    rw (lex, h.0)
      (in_number-lex (n ++ c ∷ []) s rest h.1
        ∙ ap (λ t. number t ∷ comma ∷ lex outside rest) (append_assoc n (c ∷ []) s))

pub lex-number :
    (s rest : Bytes)
    → IsNumber s
    → lex outside (s ++ b',' ∷ rest) ≡ number s ∷ comma ∷ lex outside rest
unfolding lex
lex-number [] rest h = absurd (h.0 refl)
lex-number (c ∷ s) rest h = rw (lex, h.1.0) (in_number-lex (c ∷ []) s rest h.1.1)

start-digit : (c : ℕ) → IsDigit c → start c ≡ digit
unfolding start
start-digit c h = ground (arith, h)

pub to_string-IsNumber : (n : ℕ) → IsNumber (to_string n)
to_string-IsNumber n = (
  to_string-ne-nil n,
  All-mono IsDigit (λ c. start c ≡ digit) start-digit (to_string n) (to_string-IsDigit n),
)
