-- ===== src/Http/Percent/RoundTrip.antt =====
-- `percent_decode` against an encoder, and what it refuses.
use nshgeoip.Prelude.{
  ltb, leb, ◌==◌, if◌then◌else◌, Bool-cases, length, All, Bytes, ℕ, ◌+◌, ◌-◌, ◌/◌, ◌%◌, ◌≤◌, ◌<◌,
  ◌≡◌, refl, subst, ◌≢◌, inl, inr, Bool, true, false, ◌&&◌, ◌||◌, Option, none, some, [], ◌∷◌,
  arith,
}
use nshgeoip.Http.Percent.{hex_val, hex_pair, emit, plain_byte, percent_decode}

-- One round of the loop at a byte that is no `%`.
pub percent_decode_plain :
    (c : ℕ) (s : Bytes)
    → (c == b'%') ≡ false
    → percent_decode (c ∷ s) ≡ emit (plain_byte c) (percent_decode s)
unfolding percent_decode
percent_decode_plain c [] h = rw h
percent_decode_plain c (x ∷ []) h = rw h
percent_decode_plain c (x ∷ y ∷ s) h = rw h

percent_decode_escape :
    (h l : ℕ) (s : Bytes)
    → percent_decode (b'%' ∷ h ∷ l ∷ s) ≡ emit (hex_pair h l) (percent_decode s)
unfolding percent_decode
percent_decode_escape h l s = refl

abbrev pub IsByte : ℕ → Type 0
IsByte c = (0 < c) × (c < 256)

-- The bytes that the encoder leaves as they are.
unfoldable pub is_unreserved : ℕ → Bool
is_unreserved c =
    leb b'a' c && leb c b'z'
    || leb b'A' c && leb c b'Z'
    || leb b'-' c && leb c b'9'
    || c == b'_'
    || c == b'~'

pub upper_hex : ℕ → ℕ
upper_hex d = if ltb d 10 then b'0' + d else b'A' + (d - 10)

unfoldable pub percent_encode : Bytes → Bytes
percent_encode [] = []
percent_encode (c ∷ cs) =
    let rest = percent_encode cs in
    if is_unreserved c then c ∷ rest else b'%' ∷ upper_hex (c / 16) ∷ upper_hex (c % 16) ∷ rest

hex_val-upper_hex : (d : ℕ) → d < 16 → hex_val (upper_hex d) ≡ some d
unfolding hex_val upper_hex
hex_val-upper_hex d h = ground arith

hex_pair-upper_hex :
    (c : ℕ) → IsByte c → hex_pair (upper_hex (c / 16)) (upper_hex (c % 16)) ≡ some c
unfolding hex_pair
hex_pair-upper_hex c h =
    rw (hex_val-upper_hex (c / 16) (omega arith), hex_val-upper_hex (c % 16) (omega arith))
      (ground arith)

plain_byte-is_unreserved :
    (c : ℕ) → is_unreserved c ≡ true → (plain_byte c ≡ some c) × ((c == b'%') ≡ false)
unfolding is_unreserved
plain_byte-is_unreserved c h = ground arith

-- Decoding gets back whatever bytes but NUL were encoded.
pub percent_decode-percent_encode :
    (s : Bytes) → All IsByte s → percent_decode (percent_encode s) ≡ some s
unfolding percent_encode
percent_decode-percent_encode [] h = unfold percent_decode in refl
percent_decode-percent_encode (c ∷ s) h = elim (Bool-cases (is_unreserved c)) [
  | inl u ↦ rw (
    u,
    percent_decode_plain c _ (plain_byte-is_unreserved c u).1,
    (plain_byte-is_unreserved c u).0,
    percent_decode-percent_encode s h.1,
  )
  | inr r ↦
      rw (r, percent_decode_escape, hex_pair-upper_hex c h.0, percent_decode-percent_encode s h.1)
]

-- What an encoded text may hold.
abbrev pub IsEncoded : ℕ → Type 0
IsEncoded c = (0x20 < c) × (c ≢ b'?') × (c ≢ b'&') × (c ≢ b'=') × (c ≢ b'+')

pub percent_encode-IsEncoded : (s : Bytes) → All IsByte s → All IsEncoded (percent_encode s)
unfolding percent_encode is_unreserved upper_hex
percent_encode-IsEncoded [] h = tt
percent_encode-IsEncoded (c ∷ s) h = ground (arith, percent_encode-IsEncoded s h.1)

-- A result of the loop over `s`: no NUL, and no longer than `s`.
abbrev IsSafe : Bytes → Option Bytes → Type 0
IsSafe s none = Unit
IsSafe s (some t) = All (λ c. c ≢ 0) t × (length t ≤ length s)

abbrev IsNonzero : Option ℕ → Type 0
IsNonzero none = Unit
IsNonzero (some b) = b ≢ 0

emit-IsSafe :
    (b : Option ℕ) (r : Option Bytes) (s s' : Bytes)
    → IsNonzero b
    → IsSafe s r
    → length s < length s'
    → IsSafe s' (emit b r)
emit-IsSafe none r s s' h k l = tt
emit-IsSafe (some b) none s s' h k l = tt
emit-IsSafe (some b) (some t) s s' h k l = ((h, k.0), omega arith)

hex_pair-IsNonzero : (h l : ℕ) → IsNonzero (hex_pair h l)
unfolding hex_pair
hex_pair-IsNonzero h l = ground arith

plain_byte-IsNonzero : (c : ℕ) → IsNonzero (plain_byte c)
plain_byte-IsNonzero c = ground arith

percent_decode-IsSafe : (s : Bytes) → IsSafe s (percent_decode s)
unfolding percent_decode
percent_decode-IsSafe [] = (tt, omega arith)
percent_decode-IsSafe (c ∷ []) = ground arith
percent_decode-IsSafe (c ∷ h ∷ []) = elim (Bool-cases (c == b'%')) [
  | inl e ↦ rw e tt
  | inr e ↦ rw e (
      emit-IsSafe (plain_byte c) _ (h ∷ []) (c ∷ h ∷ []) (plain_byte-IsNonzero c)
        (percent_decode-IsSafe (h ∷ [])) (omega arith))
]
percent_decode-IsSafe (c ∷ h ∷ l ∷ s) = elim (Bool-cases (c == b'%')) [
  | inl e ↦ rw e (
      emit-IsSafe (hex_pair h l) _ s (c ∷ h ∷ l ∷ s) (hex_pair-IsNonzero h l)
        (percent_decode-IsSafe s) (omega arith))
  | inr e ↦ rw e (
      emit-IsSafe (plain_byte c) _ (h ∷ l ∷ s) (c ∷ h ∷ l ∷ s) (plain_byte-IsNonzero c)
        (percent_decode-IsSafe (h ∷ l ∷ s)) (omega arith))
]

-- A text that is accepted decodes to one with no NUL, and to no longer one.
pub percent_decode_safe :
    (s : Bytes) {t : Bytes} → percent_decode s ≡ some t → All (λ c. c ≢ 0) t × (length t ≤ length s)
percent_decode_safe s e = subst (IsSafe s) e (percent_decode-IsSafe s)
