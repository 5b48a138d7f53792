-- ===== src/Prelude/ByteStrings.antt =====
-- Byte strings: `std::string` as a list of byte values, with the searches that the program makes.
use Prim.Native.Nat.{ℕ}
use Prim.Native.Char.{code}
use Prim.Native.String.{String}
use mathlib.Core.Path.{◌≡◌, refl}
use mathlib.Core.Logic.{◌↔◌, ◌≢◌, inl, inr}
use mathlib.Core.Bool.{Bool, true, false, ◌&&◌, ◌||◌}
use mathlib.Core.Option.{Option, none, some}
use mathlib.Core.List.{List, [], ◌∷◌, ◌++◌}
use native.Mathlib.Omega.{arith}
use nshgeoip.Prelude.Tests.{◌==◌, if◌then◌else◌, Option-cases}
use nshgeoip.Prelude.Lists.{All}

abbrev pub Bytes : Type 0
Bytes = List ℕ

-- The bytes of an ASCII literal.
abbrev pub codes : String → Bytes
codes String.[] = []
codes (String.◌∷◌ c s) = code c ∷ codes s

abbrev pub is_empty : Bytes → Bool
is_empty [] = true
is_empty (x ∷ xs) = false

-- `a == b` on `std::string`.
unfoldable pub equal : Bytes → Bytes → Bool
equal [] t = is_empty t
equal (a ∷ s) [] = false
equal (a ∷ s) (b ∷ t) = a == b && equal s t

pub equal_iff : (s t : Bytes) → (equal s t ≡ true) ↔ (s ≡ t)
unfolding equal
equal_iff [] [] = ground arith
equal_iff [] (b ∷ t) = ground arith
equal_iff (a ∷ s) [] = ground arith
equal_iff (a ∷ s) (b ∷ t) = ground (arith, equal_iff s t)

pub equal_refl : (a : Bytes) → equal a a ≡ true
equal_refl a = (equal_iff a a).1 refl

-- `s.find(c)`: the text before the first `c` (`substr(0, pos)`) and behind it (`substr(pos + 1)`).
unfoldable pub split_first : ℕ → Bytes → Option (Bytes × Bytes)
split_first c [] = none
split_first c (x ∷ xs) =
    if x == c
    then some ([], xs)
    else elim (split_first c xs) [ none ↦ none | some (a, b) ↦ some (x ∷ a, b) ]

abbrev pub Without : ℕ → Bytes → Type 0
Without c = All (λ x. x ≢ c)

pub split_first-Without :
    (c : ℕ) (a b : Bytes) → Without c a → split_first c (a ++ c ∷ b) ≡ some (a, b)
unfolding split_first
split_first-Without c [] b h = ground arith
split_first-Without c (x ∷ a) b h = ground (arith, split_first-Without c a b h.1)

pub split_first-none : (c : ℕ) (a : Bytes) → Without c a → split_first c a ≡ none
unfolding split_first
split_first-none c [] h = refl
split_first-none c (x ∷ a) h = ground (arith, split_first-none c a h.1)

-- What a successful split says of the text.
pub split_first_sound :
    (c : ℕ) (s a b : Bytes) → split_first c s ≡ some (a, b) → (s ≡ a ++ c ∷ b) × Without c a
unfolding split_first
split_first_sound c [] a b e = cc
split_first_sound c (x ∷ s) a b e = elim (Option-cases (split_first c s)) [
  | inl n ↦ ground arith
  | inr ((a', b'), y) ↦ ground (arith, split_first_sound c s a' b' y)
]

abbrev pub starts_with : Bytes → Bytes → Bool
starts_with [] s = true
starts_with (p ∷ ps) [] = false
starts_with (p ∷ ps) (x ∷ xs) = p == x && starts_with ps xs

-- `s.find(needle) != npos`.
unfoldable pub contains : Bytes → Bytes → Bool
contains needle [] = starts_with needle []
contains needle (x ∷ xs) = starts_with needle (x ∷ xs) || contains needle xs

-- What a chain of `<<` leaves in a string stream.
abbrev pub streamed : List Bytes → Bytes
streamed [] = []
streamed (s ∷ ss) = s ++ streamed ss
