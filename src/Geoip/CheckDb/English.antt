-- ===== src/Geoip/CheckDb/English.antt =====
-- The description in a language, said without the code.
use nshgeoip.Prelude.{
  Bool-cases, All, Bytes, codes, equal_iff, equal, ◌≡◌, sym, subst, ◌≢◌, inl, inr, false, List, [],
  ◌∷◌, ◌++◌,
}
use nshgeoip.Geoip.CheckDb.{description_in, english_description, MmdbMetadata}

-- `value` is the first description in the language, or empty if there is none.
pub data IsFirst (language : Bytes) : List (Bytes × Bytes) → Bytes → Type 0 where
  nowhere : (ds : List (Bytes × Bytes)) → All (λ d. d.0 ≢ language) ds → IsFirst language ds []
  behind :
      (before : List (Bytes × Bytes)) (value : Bytes) (after : List (Bytes × Bytes))
      → All (λ d. d.0 ≢ language) before
      → IsFirst language (before ++ (language, value) ∷ after) value

cons-IsFirst :
    {language other text value : Bytes} {ds : List (Bytes × Bytes)}
    → other ≢ language
    → IsFirst language ds value
    → IsFirst language ((other, text) ∷ ds) value
cons-IsFirst {other} {text} n (nowhere ds h) = nowhere ((other, text) ∷ ds) (n, h)
cons-IsFirst {other} {text} n (behind before value after h) =
    behind ((other, text) ∷ before) value after (n, h)

description_in-IsFirst :
    (language : Bytes) (ds : List (Bytes × Bytes))
    → IsFirst language ds (description_in language ds)
description_in-IsFirst language [] = nowhere [] tt
description_in-IsFirst language ((other, text) ∷ ds) = elim (Bool-cases (equal other language)) [
  | inl e ↦ rw e (
      subst (λ l. IsFirst language ((l, text) ∷ ds) text) (sym ((equal_iff other language).0 e))
        (behind [] text ds tt))
  | inr e ↦ rw e (
      cons-IsFirst (λ same. true_ne_false other language same e)
        (description_in-IsFirst language ds))
]
  where
    true_ne_false : (o l : Bytes) → o ≡ l → equal o l ≡ false → ⊥
    true_ne_false o l same e = let t = (equal_iff o l).1 same in cc

pub english_description-IsFirst :
    (meta : MmdbMetadata) → IsFirst (codes "en") meta.description (english_description meta)
unfolding english_description
english_description-IsFirst meta = description_in-IsFirst (codes "en") meta.description
