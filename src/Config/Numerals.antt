-- ===== src/Config/Numerals.antt =====
-- The numbers of the configuration, printed and read.
use nshgeoip.Prelude.{
  All, All-mono, Bytes, decimal_value-to_string, to_string-IsDigit, to_string-ne-nil, IsDigit,
  to_string, decimal_value, ℕ, ◌+◌, ◌-◌, ◌*◌, ◌^◌, ◌≤◌, ◌<◌, ◌≡◌, refl, sym, ap, ◌∙◌, subst, ◌≢◌,
  true, false, Option, none, some, [], ◌∷◌, arith,
}
use nshgeoip.Ip.Accepts.{c_str_whole}
use nshgeoip.Config.Number.{
  skip_space, take_sign, is_digit, scan_digits, long_value, strtol, parse_long, in_range,
  parse_ranged, pos, converted,
}

scan_digits-digits :
    (acc : ℕ) (s : Bytes) → All IsDigit s → scan_digits 10 acc s ≡ (decimal_value acc s, [])
unfolding scan_digits decimal_value
scan_digits-digits acc [] h = refl
scan_digits-digits acc (c ∷ s) h = ground (arith, scan_digits-digits (acc * 10 + (c - b'0')) s h.1)

pub skip_space-digit : (c : ℕ) (s : Bytes) → IsDigit c → skip_space (c ∷ s) ≡ c ∷ s
skip_space-digit c s h = ground arith

pub take_sign-digit : (c : ℕ) (s : Bytes) → IsDigit c → take_sign (c ∷ s) ≡ (false, c ∷ s)
take_sign-digit c s h = ground arith

is_digit-IsDigit : (c : ℕ) → IsDigit c → is_digit 10 c ≡ true
is_digit-IsDigit c h = ground arith

pub long_value_small : (n : ℕ) → n < 2 ^ 63 → long_value false (n, []) ≡ converted (pos n) []
long_value_small n h = ground arith

strtol-digits :
    (s : Bytes)
    → s ≢ []
    → All IsDigit s
    → decimal_value 0 s < 2 ^ 63
    → strtol 10 s ≡ converted (pos (decimal_value 0 s)) []
unfolding strtol
strtol-digits [] n h small = absurd (n refl)
strtol-digits (c ∷ s) n h small =
    rw
      (
        skip_space-digit c s h.0,
        take_sign-digit c s h.0,
        is_digit-IsDigit c h.0,
        scan_digits-digits 0 (c ∷ s) h,
      )
      (long_value_small (decimal_value 0 (c ∷ s)) small)

parse_long-digits :
    (s : Bytes)
    → s ≢ []
    → All IsDigit s
    → decimal_value 0 s < 2 ^ 63
    → parse_long 10 s ≡ some (pos (decimal_value 0 s))
unfolding parse_long
parse_long-digits [] n h small = absurd (n refl)
parse_long-digits (c ∷ s) n h small =
    rw
      (
        c_str_whole (c ∷ s) (All-mono IsDigit (λ x. x ≢ 0) (λ x d e. omega arith) (c ∷ s) h),
        strtol-digits (c ∷ s) n h small,
      )
      refl

pub in_range-inside : (low high n : ℕ) → low ≤ n → n ≤ high → in_range low high (pos n) ≡ some n
in_range-inside low high n a b = ground arith

-- A number in the range, printed in decimal, is read back, for a range below 2^63.
pub parse_ranged-to_string :
    (low high n : ℕ)
    → low ≤ n
    → n ≤ high
    → high < 2 ^ 63
    → parse_ranged 10 low high (to_string n) ≡ some n
unfolding parse_ranged
parse_ranged-to_string low high n a b c =
    ap (λ o. elim o as (λ _. Option ℕ) [ some v ↦ in_range low high v | none ↦ none ])
      (parse_long-digits (to_string n) (to_string-ne-nil n) (to_string-IsDigit n)
        (subst (λ k. k < 2 ^ 63) (sym (decimal_value-to_string n)) (omega arith)))
    ∙ ap (λ k. in_range low high (pos k)) (decimal_value-to_string n)
    ∙ in_range-inside low high n a b
