-- ===== src/Http/Request/Fuel.antt =====
-- The two loops of the parser are given fuel enough: more changes nothing.
use nshgeoip.Prelude.{
  Option-cases, length, length-append, Bytes, split_first_sound, split_first, ℕ, zero, suc, ◌+◌,
  ◌≤◌, ◌≡◌, refl, ap, inl, inr, some, [], ◌∷◌, arith,
}
use nshgeoip.Http.Chars.{split_crlf}
use nshgeoip.Http.Chars.Split.{split_crlf-length}
use nshgeoip.Http.Request.{header_line, scan_headers, decode_pair, parse_query}

pub scan_headers-fuel :
    (f g : ℕ) (s accept : Bytes)
    → length s ≤ f
    → length s ≤ g
    → scan_headers f s accept ≡ scan_headers g s accept
unfolding scan_headers
scan_headers-fuel zero zero s accept h k = refl
scan_headers-fuel zero (suc g) [] accept h k = unfold split_crlf in refl
scan_headers-fuel zero (suc g) (x ∷ s) accept h k = absurd (omega arith)
scan_headers-fuel (suc f) zero [] accept h k = unfold split_crlf in refl
scan_headers-fuel (suc f) zero (x ∷ s) accept h k = absurd (omega arith)
scan_headers-fuel (suc f) (suc g) s accept h k = elim (Option-cases (split_crlf s)) [
  | inl n ↦ rw (n, scan_headers)
  | inr (([], rest), e) ↦ rw (e, scan_headers)
  | inr ((c ∷ line, rest), e) ↦
      let shorter = split_crlf-length s (c ∷ line) rest e in
      rw (e, scan_headers)
        (scan_headers-fuel f g rest (header_line (c ∷ line) accept) (omega arith) (omega arith))
]

split_first-length :
    (c : ℕ) (s a b : Bytes) → split_first c s ≡ some (a, b) → length s ≡ length a + length b + 1
split_first-length c s a b e =
    omega (arith, ap length (split_first_sound c s a b e).0, length-append a (c ∷ b))

pub parse_query-fuel :
    (f g : ℕ) (s : Bytes) → length s ≤ f → length s ≤ g → parse_query f s ≡ parse_query g s
unfolding parse_query
parse_query-fuel zero zero s h k = refl
parse_query-fuel zero (suc g) [] h k = unfold split_first in refl
parse_query-fuel zero (suc g) (x ∷ s) h k = absurd (omega arith)
parse_query-fuel (suc f) zero [] h k = unfold split_first in refl
parse_query-fuel (suc f) zero (x ∷ s) h k = absurd (omega arith)
parse_query-fuel (suc f) (suc g) s h k = elim (Option-cases (split_first b'&' s)) [
  | inl n ↦ rw (n, parse_query)
  | inr ((pair, rest), e) ↦
      let shorter = split_first-length b'&' s pair rest e in
      rw (e, parse_query)
        (ap (decode_pair pair) (parse_query-fuel f g rest (omega arith) (omega arith)))
]
