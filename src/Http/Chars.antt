-- ===== src/Http/Chars.antt =====
-- src/http.cpp: the character helpers `trim_spaces` and `to_lower`, in the C locale, and the
-- search for CR LF.
pub mod Split
use nshgeoip.Prelude.{
  leb, ◌==◌, if◌then◌else◌, Bytes, is_empty, ℕ, ◌+◌, ◌&&◌, Option, none, some, [], ◌∷◌, map,
}

-- `s.find_first_not_of(' ')` and the rest of the text from there.
unfoldable pub trim_left : Bytes → Bytes
trim_left [] = []
trim_left (c ∷ cs) = if c == b' ' then trim_left cs else c ∷ cs

-- Up to `s.find_last_not_of(' ')`: a space is kept if something other follows it.
unfoldable pub trim_right : Bytes → Bytes
trim_right [] = []
trim_right (c ∷ cs) =
    let rest = trim_right cs in if c == b' ' && is_empty rest then [] else c ∷ rest

unfoldable pub trim_spaces : Bytes → Bytes
unfolding trim_left trim_right
trim_spaces s = trim_right (trim_left s)

abbrev pub lower_byte : ℕ → ℕ
lower_byte c = if leb b'A' c && leb c b'Z' then c + 32 else c

abbrev pub to_lower : Bytes → Bytes
to_lower = map lower_byte

-- `s.find("\r\n")`: the text before the first CR LF, and the text behind it.
unfoldable pub split_crlf : Bytes → Option (Bytes × Bytes)
split_crlf [] = none
split_crlf (c ∷ []) = none
split_crlf (c ∷ d ∷ cs) =
    if c == 13 && d == 10
    then some ([], cs)
    else elim (split_crlf (d ∷ cs)) [ none ↦ none | some (a, b) ↦ some (c ∷ a, b) ]
