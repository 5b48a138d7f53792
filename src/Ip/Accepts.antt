-- ===== src/Ip/Accepts.antt =====
-- Which texts are addresses, and what the result holds.
use mathlib.Core.Option.{some-injective}
use nshgeoip.Prelude.{
  ltb, Bool-cases, length, Bytes, Without, ℕ, ◌≤◌, ◌≡◌, refl, sym, ◌∙◌, subst, ◌↔◌, inl, inr,
  Option, none, some, [], ◌∷◌, arith,
}
use nshgeoip.Ip.{InetPton, c_str, parse_ip_address, af_inet, af_inet6, ParsedAddr}

-- The text is one of this address: an IPv4 address whenever inet_pton() takes it for one, an IPv6
-- address if only that fits.
pub data IsAddressOf (inet_pton : InetPton) (text : Bytes) : ParsedAddr → Type 0 where
  is_inet :
      (bytes : Bytes)
      → 1 ≤ length text
      → length text ≤ 45
      → inet_pton af_inet (c_str text) ≡ some bytes
      → IsAddressOf inet_pton text (record { len = 16; family = af_inet; address = bytes })
  is_inet6 :
      (bytes : Bytes)
      → 1 ≤ length text
      → length text ≤ 45
      → inet_pton af_inet (c_str text) ≡ none
      → inet_pton af_inet6 (c_str text) ≡ some bytes
      → IsAddressOf inet_pton text (record { len = 28; family = af_inet6; address = bytes })

-- A text without NUL reaches inet_pton() whole.
pub c_str_whole : (s : Bytes) → Without 0 s → c_str s ≡ s
unfolding c_str
c_str_whole [] h = refl
c_str_whole (c ∷ s) h = ground (arith, c_str_whole s h.1)

accepts :
    (inet_pton : InetPton) (text : Bytes) (a : ParsedAddr)
    → IsAddressOf inet_pton text a
    → parse_ip_address inet_pton text ≡ some a
unfolding parse_ip_address
accepts inet_pton [] a (is_inet bytes l h e) = absurd (omega (arith, l))
accepts inet_pton [] a (is_inet6 bytes l h n e) = absurd (omega (arith, l))
accepts inet_pton (c ∷ text) a (is_inet bytes l h e) = ground arith
accepts inet_pton (c ∷ text) a (is_inet6 bytes l h n e) = ground arith

module _ (inet_pton : InetPton) (c : ℕ) (text : Bytes) (h : length (c ∷ text) ≤ 45) where
  by_family :
      (a : ParsedAddr) (four six : Option Bytes)
      → inet_pton af_inet (c_str (c ∷ text)) ≡ four
      → inet_pton af_inet6 (c_str (c ∷ text)) ≡ six
      → parse_ip_address inet_pton (c ∷ text) ≡ some a
      → IsAddressOf inet_pton (c ∷ text) a
  unfolding parse_ip_address
  by_family a (some bytes) six f s e =
      let i = is_inet bytes (omega arith) h f in
      subst (IsAddressOf inet_pton (c ∷ text))
        (some-injective _ _ (sym (accepts inet_pton (c ∷ text) _ i) ∙ e)) i
  by_family a none (some bytes) f s e =
      let i = is_inet6 bytes (omega arith) h f s in
      subst (IsAddressOf inet_pton (c ∷ text))
        (some-injective _ _ (sym (accepts inet_pton (c ∷ text) _ i) ∙ e)) i
  by_family a none none f s e = absurd (ground arith)

of_result :
    (inet_pton : InetPton) (text : Bytes) (a : ParsedAddr)
    → parse_ip_address inet_pton text ≡ some a
    → IsAddressOf inet_pton text a
unfolding parse_ip_address
of_result inet_pton [] a e = cc
of_result inet_pton (c ∷ text) a e = elim (Bool-cases (ltb 45 (length (c ∷ text)))) [
  | inl l ↦ absurd (ground arith)
  | inr l ↦ by_family inet_pton c text (ground arith) a _ _ refl refl e
]

-- Which texts are addresses, and which address each is: the result is an address exactly if the text
-- has 1 to 45 bytes and inet_pton() takes it, up to its first NUL, for an address, which is of IPv4 if
-- that fits and else of IPv6; it has the length of the socket address of its family.
pub parse_ip_address-IsAddressOf :
    (inet_pton : InetPton) (text : Bytes) (a : ParsedAddr)
    → (parse_ip_address inet_pton text ≡ some a) ↔ IsAddressOf inet_pton text a
parse_ip_address-IsAddressOf inet_pton text a =
    (of_result inet_pton text a, accepts inet_pton text a)
