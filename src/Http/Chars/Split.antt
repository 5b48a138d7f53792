-- ===== src/Http/Chars/Split.antt =====
-- The search for CR LF splits at the first one, and drops two bytes.
use nshgeoip.Prelude.{
  Option-cases, length, length-append, Bytes, Without, ◌+◌, ◌≡◌, refl, ap, inl, inr, some, [], ◌∷◌,
  ◌++◌, arith,
}
use nshgeoip.Http.Chars.{trim_spaces, split_crlf}

pub split_crlf-Without : (a b : Bytes) → Without 13 a → split_crlf (a ++ 13 ∷ 10 ∷ b) ≡ some (a, b)
unfolding split_crlf
split_crlf-Without [] b h = refl
split_crlf-Without (x ∷ []) b h = ground arith
split_crlf-Without (x ∷ y ∷ a) b h = ground (arith, split_crlf-Without (y ∷ a) b h.1)

pub split_crlf_sound : (s a b : Bytes) → split_crlf s ≡ some (a, b) → s ≡ a ++ 13 ∷ 10 ∷ b
unfolding split_crlf
split_crlf_sound [] a b e = cc
split_crlf_sound (x ∷ []) a b e = cc
split_crlf_sound (x ∷ y ∷ s) a b e = elim (Option-cases (split_crlf (y ∷ s))) [
  | inl n ↦ ground arith
  | inr ((a', b'), q) ↦ ground (arith, split_crlf_sound (y ∷ s) a' b' q)
]

pub split_crlf-length :
    (s a b : Bytes) → split_crlf s ≡ some (a, b) → length s ≡ length a + length b + 2
split_crlf-length s a b e =
    omega (arith, ap length (split_crlf_sound s a b e), length-append a (13 ∷ 10 ∷ b))

-- The first byte of the text to trim is a space: it changes nothing.
pub trim_spaces-space : (s : Bytes) → trim_spaces (b' ' ∷ s) ≡ trim_spaces s
unfolding trim_spaces
trim_spaces-space s = refl
