-- ===== src/Http/Percent.antt =====
-- src/http.cpp, `percent_decode`: bytes of a request target.
pub mod RoundTrip
use nshgeoip.Prelude.{
  ltb, leb, ◌==◌, if◌then◌else◌, Bytes, ℕ, ◌+◌, ◌-◌, ◌*◌, ◌&&◌, ◌||◌, Option, none, some, [], ◌∷◌,
}

-- The lambda `hex_val`; `none` is its -1.
unfoldable pub hex_val : ℕ → Option ℕ
hex_val h =
    if leb b'0' h && leb h b'9'
    then some (h - b'0')
    else if leb b'a' h && leb h b'f'
    then some (h - b'a' + 10)
    else if leb b'A' h && leb h b'F'
    then some (h - b'A' + 10)
    else none

-- `(hi << 4) | lo` on two digits; NUL is refused.
decoded_byte : Option ℕ → Option ℕ → Option ℕ
decoded_byte (some hi) (some lo) = if hi * 16 + lo == 0 then none else some (hi * 16 + lo)
decoded_byte _ _ = none

unfoldable pub hex_pair : ℕ → ℕ → Option ℕ
unfolding decoded_byte
hex_pair h l = decoded_byte (hex_val h) (hex_val l)

-- One more byte in front of what the rest of the loop gives.
abbrev pub emit : Option ℕ → Option Bytes → Option Bytes
emit (some b) (some out) = some (b ∷ out)
emit (some b) none = none
emit none rest = none

-- The byte that stands for itself, or for a space.
abbrev pub plain_byte : ℕ → Option ℕ
plain_byte c = if c == b'+' then some b' ' else if ltb c 0x20 || c == 0x7f then none else some c

-- `none` is the result false. A `%` in the last two places is refused.
unfoldable pub percent_decode : Bytes → Option Bytes
percent_decode [] = some []
percent_decode (c ∷ []) = if c == b'%' then none else emit (plain_byte c) (some [])
percent_decode (c ∷ h ∷ []) =
    if c == b'%' then none else emit (plain_byte c) (percent_decode (h ∷ []))
percent_decode (c ∷ h ∷ l ∷ cs) =
    let skipped = percent_decode cs in
    let next = percent_decode (h ∷ l ∷ cs) in
    if c == b'%' then emit (hex_pair h l) skipped else emit (plain_byte c) next
