-- ===== src/Server/Describe/Mode.antt =====
-- The mode of the socket, printed and configured again.
use nshgeoip.Prelude.{
  All, All-mono, Bytes, codes, IsDigit, equal, ℕ, ◌+◌, ◌*◌, ◌/◌, ◌%◌, ◌^◌, ◌≤◌, ◌<◌, ◌≡◌, refl, ap,
  ◌∙◌, ◌≢◌, true, Option, none, some, [], ◌∷◌, arith,
}
use nshgeoip.Ip.Accepts.{c_str_whole}
use nshgeoip.Config.Number.{
  is_digit, scan_digits, strtol, parse_long, in_range, parse_ranged, pos, converted,
}
use nshgeoip.Config.Numerals.{skip_space-digit, take_sign-digit, long_value_small, in_range-inside}
use nshgeoip.Config.{checked, first_branch, set_key, Config, set}
use nshgeoip.Server.Describe.{mode_octal}

octal_digit : (d : ℕ) → d < 8 → is_digit 8 (b'0' + d) ≡ true
octal_digit d h = ground arith

scan_octal :
    (acc d : ℕ) (s : Bytes)
    → d < 8
    → scan_digits 8 acc ((b'0' + d) ∷ s) ≡ scan_digits 8 (acc * 8 + d) s
unfolding scan_digits
scan_octal acc d s h = rw (octal_digit d h) (ap (λ n. scan_digits 8 (acc * 8 + n) s) (omega arith))

scan_four :
    (a b c d : ℕ)
    → a < 8
    → b < 8
    → c < 8
    → d < 8
    → scan_digits 8 0 ((b'0' + a) ∷ (b'0' + b) ∷ (b'0' + c) ∷ (b'0' + d) ∷ [])
      ≡ scan_digits 8 ((((0 * 8 + a) * 8 + b) * 8 + c) * 8 + d) []
scan_four a b c d ha hb hc hd =
    scan_octal 0 a _ ha
    ∙ scan_octal (0 * 8 + a) b _ hb
    ∙ scan_octal ((0 * 8 + a) * 8 + b) c _ hc
    ∙ scan_octal (((0 * 8 + a) * 8 + b) * 8 + c) d [] hd

scan_nothing : (n m : ℕ) → n ≡ m → scan_digits 8 n [] ≡ (m, [])
unfolding scan_digits
scan_nothing n m e = ap (λ k. (k, [])) e

mode_value : (m : ℕ) → m ≤ 4095 → scan_digits 8 0 (mode_octal m) ≡ (m, [])
unfolding mode_octal
mode_value m h =
    scan_four (m / 512 % 8) (m / 64 % 8) (m / 8 % 8) (m % 8) (omega arith) (omega arith)
      (omega arith) (omega arith)
    ∙ scan_nothing _ m (omega (arith, h))

mode-IsDigit : (m : ℕ) → All IsDigit (mode_octal m)
unfolding mode_octal
mode-IsDigit m = (omega arith, (omega arith, (omega arith, (omega arith, tt))))

octal_strtol :
    (c : ℕ) (s : Bytes) (n : ℕ)
    → IsDigit c
    → is_digit 8 c ≡ true
    → scan_digits 8 0 (c ∷ s) ≡ (n, [])
    → n < 2 ^ 63
    → strtol 8 (c ∷ s) ≡ converted (pos n) []
unfolding strtol
octal_strtol c s n d o e h =
    rw (skip_space-digit c s d, take_sign-digit c s d, o, e) (long_value_small n h)

parse_long-mode_octal : (m : ℕ) → m ≤ 4095 → parse_long 8 (mode_octal m) ≡ some (pos m)
unfolding parse_long mode_octal
parse_long-mode_octal m h =
    rw
      (
        c_str_whole (mode_octal m)
            (All-mono IsDigit (λ x. x ≢ 0) (λ x d e. omega arith) (mode_octal m) (mode-IsDigit m)),
        octal_strtol (b'0' + m / 512 % 8) _ m (mode-IsDigit m).0
            (octal_digit (m / 512 % 8) (omega arith)) (mode_value m h) (omega arith),
      )
      refl

parse_ranged-mode_octal : (m : ℕ) → m ≤ 4095 → parse_ranged 8 0 4095 (mode_octal m) ≡ some m
unfolding parse_ranged
parse_ranged-mode_octal m h =
    ap (λ o. elim o as (λ _. Option ℕ) [ some v ↦ in_range 0 4095 v | none ↦ none ])
      (parse_long-mode_octal m h)
    ∙ in_range-inside 0 4095 m (omega arith) h

-- The mode that start-up logs for the socket, set as socket_mode in a configuration, is the mode
-- again, leading zeros included, for every mode that a configuration may have.
pub set_key-mode_octal :
    (cfg : Config) (m : ℕ)
    → m ≤ 4095
    → set_key (codes "socket_mode") (mode_octal m) cfg ≡ set (record cfg { socket_mode = m })
unfolding set_key first_branch equal checked
set_key-mode_octal cfg m h =
    ap
      (λ o.
        checked o (λ mode. record cfg { socket_mode = mode })
          (codes "invalid socket_mode (expected octal, e.g. 0660)"))
      (parse_ranged-mode_octal m h)
