-- ===== src/Prelude/Decimal.antt =====
-- `std::to_string` and `<<` on unsigned numbers, and the reading of decimal digits.
use Prim.Native.Nat.{ℕ, zero, suc, ◌+◌, ◌-◌, ◌*◌, ◌/◌, ◌%◌, ◌≤◌, ◌<◌}
use mathlib.Core.Path.{◌≡◌, ◌∙◌, ap}
use mathlib.Core.Logic.{◌≢◌, inl, inr}
use mathlib.Core.List.{[], ◌∷◌}
use native.Mathlib.Omega.{arith}
use nshgeoip.Prelude.Tests.{ltb, if◌then◌else◌, Bool-cases}
use nshgeoip.Prelude.Lists.{All}
use nshgeoip.Prelude.ByteStrings.{Bytes}

-- The digits of `n` in front of `out`; `n + 1` is fuel enough.
digits_onto : ℕ → ℕ → Bytes → Bytes
digits_onto zero n out = out
digits_onto (suc fuel) n out =
    let more = digits_onto fuel (n / 10) ((b'0' + n % 10) ∷ out) in
    if ltb n 10 then (b'0' + n) ∷ out else more

unfoldable pub to_string : ℕ → Bytes
unfolding digits_onto
to_string n = digits_onto (suc n) n []

unfoldable pub decimal_value : ℕ → Bytes → ℕ
decimal_value acc [] = acc
decimal_value acc (c ∷ cs) = decimal_value (acc * 10 + (c - b'0')) cs

decimal_value-digits_onto :
    (fuel n : ℕ) (out : Bytes)
    → n < fuel
    → decimal_value 0 (digits_onto fuel n out) ≡ decimal_value n out
unfolding digits_onto decimal_value
decimal_value-digits_onto zero n out h = absurd (omega arith)
decimal_value-digits_onto (suc fuel) n out h = elim (Bool-cases (ltb n 10)) [
  | inl e ↦ rw e (ap (λ k. decimal_value k out) (omega arith))
  | inr e ↦ rw e (
      decimal_value-digits_onto fuel (n / 10) _ (ground arith)
      ∙ ap (λ k. decimal_value k out) (omega arith))
]

-- The digits that are printed for a number read back as the number.
pub decimal_value-to_string : (n : ℕ) → decimal_value 0 (to_string n) ≡ n
unfolding to_string decimal_value
decimal_value-to_string n = decimal_value-digits_onto (suc n) n [] (omega arith)

abbrev pub IsDigit : ℕ → Type 0
IsDigit c = (b'0' ≤ c) × (c ≤ b'9')

digits_onto-IsDigit :
    (fuel n : ℕ) (out : Bytes) → All IsDigit out → All IsDigit (digits_onto fuel n out)
unfolding digits_onto
digits_onto-IsDigit zero n out h = h
digits_onto-IsDigit (suc fuel) n out h = elim (Bool-cases (ltb n 10)) [
  | inl e ↦ rw e (ground arith, h)
  | inr e ↦ rw e (digits_onto-IsDigit fuel (n / 10) _ (omega arith, h))
]

pub to_string-IsDigit : (n : ℕ) → All IsDigit (to_string n)
unfolding to_string
to_string-IsDigit n = digits_onto-IsDigit (suc n) n [] tt

digits_onto-ne-nil : (fuel n c : ℕ) (out : Bytes) → digits_onto fuel n (c ∷ out) ≢ []
unfolding digits_onto
digits_onto-ne-nil zero n c out = λ e. cc
digits_onto-ne-nil (suc fuel) n c out = elim (Bool-cases (ltb n 10)) [
  | inl e ↦ rw e (λ f. cc)
  | inr e ↦ rw e (digits_onto-ne-nil fuel (n / 10) _ (c ∷ out))
]

pub to_string-ne-nil : (n : ℕ) → to_string n ≢ []
unfolding to_string digits_onto
to_string-ne-nil n = elim (Bool-cases (ltb n 10)) [
  | inl e ↦ rw e (λ f. cc)
  | inr e ↦ rw e (digits_onto-ne-nil n (n / 10) _ [])
]
