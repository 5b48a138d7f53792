-- ===== src/Config/Number.antt =====
-- src/config.cpp: the reading of values, with the parts of the C library that it uses: isspace()
-- in the "C" locale, strtol() with a 64-bit long for the bases 8 and 10, tolower().
use nshgeoip.Prelude.{
  ltb, leb, ◌==◌, if◌then◌else◌, Bytes, codes, is_empty, equal, ℕ, zero, suc, ◌+◌, ◌-◌, ◌*◌, ◌^◌,
  ◌≤◌, ◌≡◌, Bool, true, false, ◌&&◌, ◌||◌, Option, none, some, List, [], ◌∷◌, map, arith,
}
use nshgeoip.Ip.{c_str}

pub data ℤ : Type 0 where
  pos : ℕ → ℤ
  negsuc : ℕ → ℤ

abbrev pub is_space : ℕ → Bool
is_space c = c == 32 || (leb 9 c && leb c 13)

abbrev pub skip_space : Bytes → Bytes
skip_space [] = []
skip_space (c ∷ cs) = if is_space c then skip_space cs else c ∷ cs

-- What is left when trailing white space is dropped.
abbrev pub drop_space_end : Bytes → Bytes
drop_space_end [] = []
drop_space_end (c ∷ cs) =
    let rest = drop_space_end cs in if is_empty rest && is_space c then [] else c ∷ rest

unfoldable pub trim : Bytes → Bytes
trim s = drop_space_end (skip_space s)

-- An optional sign: whether it is '-', and the rest.
abbrev pub take_sign : Bytes → Bool × Bytes
take_sign [] = (false, [])
take_sign (c ∷ cs) =
    if c == b'-' then (true, cs) else if c == b'+' then (false, cs) else (false, c ∷ cs)

abbrev pub is_digit : ℕ → ℕ → Bool
is_digit base c = leb b'0' c && ltb c (b'0' + base)

-- The value of the digits in front of a text, and what follows them.
unfoldable pub scan_digits : ℕ → ℕ → Bytes → ℕ × Bytes
scan_digits base acc [] = (acc, [])
scan_digits base acc (c ∷ cs) =
    let more = scan_digits base (acc * base + (c - b'0')) cs in
    if is_digit base c then more else (acc, c ∷ cs)

-- `strtol`: nothing converted, ERANGE, or the value and where it ends.
pub data Strtol : Type 0 where
  no_conversion : Strtol
  out_of_range : Strtol
  converted : ℤ → Bytes → Strtol

abbrev pub long_value : Bool → ℕ × Bytes → Strtol
long_value false (n, rest) = if ltb n (2 ^ 63) then converted (pos n) rest else out_of_range
long_value true (zero, rest) = converted (pos 0) rest
long_value true (suc n, rest) = if ltb n (2 ^ 63) then converted (negsuc n) rest else out_of_range

abbrev pub long_digits : ℕ → Bool × Bytes → Strtol
long_digits base (minus, []) = no_conversion
long_digits base (minus, c ∷ cs) =
    if is_digit base c then long_value minus (scan_digits base 0 (c ∷ cs)) else no_conversion

unfoldable pub strtol : ℕ → Bytes → Strtol
strtol base s = long_digits base (take_sign (skip_space s))

-- The value, if the whole text was converted.
abbrev pub whole_value : Strtol → Option ℤ
whole_value (converted v []) = some v
whole_value _ = none

unfoldable pub parse_long : ℕ → Bytes → Option ℤ
parse_long base value = if is_empty value then none else whole_value (strtol base (c_str value))

-- The guard `!parse_long(value, v, base) || v < low || v > high` and the cast behind it.
abbrev pub in_range : ℕ → ℕ → ℤ → Option ℕ
in_range low high (pos n) = if ltb n low || ltb high n then none else some n
in_range low high (negsuc n) = none

unfoldable pub parse_ranged : ℕ → ℕ → ℕ → Bytes → Option ℕ
parse_ranged base low high value = elim (parse_long base value) [
  | some v ↦ in_range low high v
  | none ↦ none
]

unfoldable pub parse_port : Bytes → Option ℕ
parse_port text = parse_ranged 10 1 65535 text

-- tolower() on one byte.
abbrev pub lower : ℕ → ℕ
lower c = if leb b'A' c && leb c b'Z' then c + 32 else c

abbrev pub one_of : Bytes → List Bytes → Bool
one_of v [] = false
one_of v (w ∷ ws) = equal v w || one_of v ws

unfoldable pub parse_bool : Bytes → Option Bool
parse_bool value =
    let v = map lower value in
    if one_of v (codes "1" ∷ codes "true" ∷ codes "yes" ∷ codes "on" ∷ [])
    then some true
    else if one_of v (codes "0" ∷ codes "false" ∷ codes "no" ∷ codes "off" ∷ [])
    then some false
    else none

in_range-bounds :
    (low high : ℕ) (v : ℤ) (n : ℕ) → in_range low high v ≡ some n → (low ≤ n) × (n ≤ high)
in_range-bounds low high (pos m) n e = ground arith
in_range-bounds low high (negsuc m) n e = cc

pub parse_ranged_bounds :
    (base low high : ℕ) (value : Bytes) (n : ℕ)
    → parse_ranged base low high value ≡ some n
    → (low ≤ n) × (n ≤ high)
unfolding parse_ranged
parse_ranged_bounds base low high value n e = bounded (parse_long base value) e
  where
    bounded :
        (o : Option ℤ)
        → elim o as (λ _. Option ℕ) [ some v ↦ in_range low high v | none ↦ none ] ≡ some n
        → (low ≤ n) × (n ≤ high)
    bounded none e = cc
    bounded (some v) e = in_range-bounds low high v n e
