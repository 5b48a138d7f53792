-- ===== src/Text/Clean.antt =====
-- What `sanitize_header_value` lets through.
use nshgeoip.Prelude.{All, Bytes, ℕ, ◌≤◌, ◌≡◌, refl, ◌≢◌, [], ◌∷◌, ◌++◌, arith}
use nshgeoip.Text.{sanitize_header_value}

-- A byte that may stand in a header value: no control character and no DEL.
abbrev pub IsPlain : ℕ → Type 0
IsPlain c = (0x20 ≤ c) × (c ≢ 0x7f)

pub sanitize_header_value-IsPlain : (s : Bytes) → All IsPlain (sanitize_header_value s)
unfolding sanitize_header_value
sanitize_header_value-IsPlain [] = tt
sanitize_header_value-IsPlain (c ∷ s) = ground (arith, sanitize_header_value-IsPlain s)

-- A clean value is left as it is.
pub sanitize_header_value-eq : (s : Bytes) → All IsPlain s → sanitize_header_value s ≡ s
unfolding sanitize_header_value
sanitize_header_value-eq [] h = refl
sanitize_header_value-eq (c ∷ s) h = ground (arith, sanitize_header_value-eq s h.1)

pub sanitize_header_value-append :
    (s t : Bytes)
    → sanitize_header_value (s ++ t) ≡ sanitize_header_value s ++ sanitize_header_value t
unfolding sanitize_header_value
sanitize_header_value-append [] t = refl
sanitize_header_value-append (c ∷ s) t = ground (arith, sanitize_header_value-append s t)
