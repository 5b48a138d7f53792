-- ===== src/Geoip/CheckDb/Entries.antt =====
-- The entries that the INI report should have, and that its pairs are these.
use nshgeoip.Prelude.{
  leb, ◌==◌, if◌then◌else◌, Bytes, codes, to_string, ◌≡◌, refl, ap, not, ◌&&◌, List, [], ◌∷◌, ◌++◌,
  append-nil, arith,
}
use nshgeoip.Text.{sanitize_header_value}
use nshgeoip.External.{External}
use nshgeoip.Geoip.{GeoIpDbMetadata}
use nshgeoip.Geoip.CheckDb.{
  joined, join_languages, english_description, ini_descriptions, ini_languages, ini_pairs,
  MmdbMetadata,
}

-- What is left of a string of the file: its bytes from 32 on but DEL, in order.
abbrev pub visible : Bytes → Bytes
visible [] = []
visible (c ∷ s) = let more = visible s in if leb 32 c && not (c == 127) then c ∷ more else more

sanitize_header_value-visible : (s : Bytes) → sanitize_header_value s ≡ visible s
unfolding sanitize_header_value
sanitize_header_value-visible [] = refl
sanitize_header_value-visible (c ∷ s) = ground (arith, sanitize_header_value-visible s)

-- The language codes with commas between them.
abbrev pub with_commas : List Bytes → Bytes
with_commas [] = []
with_commas (l ∷ []) = l
with_commas (l ∷ m ∷ ls) = l ++ b',' ∷ with_commas (m ∷ ls)

joined-with_commas :
    (l : Bytes) (ls : List Bytes) → joined (codes ",") (l ∷ ls) ≡ with_commas (l ∷ ls)
joined-with_commas l [] = append-nil l
joined-with_commas l (m ∷ ls) = ap (λ t. l ++ b',' ∷ t) (joined-with_commas m ls)

-- The keys and values that the report should have, in order.
abbrev pub language_entries : List Bytes → List (Bytes × Bytes)
language_entries [] = []
language_entries (l ∷ ls) = (codes "languages", visible (with_commas (l ∷ ls))) ∷ []

abbrev pub description_entries : List (Bytes × Bytes) → List (Bytes × Bytes)
description_entries [] = []
description_entries ((language, text) ∷ ds) =
    (codes "description_" ++ language, visible text) ∷ description_entries ds

module _ (ext : External) (version path : Bytes) (meta : MmdbMetadata) where
  open ext use {Double, fixed}

  abbrev pub report_entries : GeoIpDbMetadata Double → Bytes → List (Bytes × Bytes)
  report_entries info english =
      (codes "path", visible path)
      ∷ (codes "libmaxminddb_version", version)
      ∷ (codes "database_type", visible info.database_type)
      ∷ (codes "ip_version", to_string meta.ip_version)
      ∷ (codes "binary_format_major_version", to_string meta.binary_format_major_version)
      ∷ (codes "binary_format_minor_version", to_string meta.binary_format_minor_version)
      ∷ (codes "node_count", to_string meta.node_count)
      ∷ (codes "record_size", to_string meta.record_size)
      ∷ (codes "build_epoch", to_string info.build_epoch)
      ∷ (codes "build_date", info.build_time)
      ∷ (codes "age_days", fixed 1 info.age_days)
      ∷ (codes "age_ms", to_string info.age_ms)
      ∷ (codes "age_ns", to_string info.age_ns)
      ∷ (language_entries meta.languages
          ++ ((codes "description", visible english) ∷ description_entries meta.description))

ini_descriptions-entries :
    (ds : List (Bytes × Bytes)) → ini_descriptions ds ≡ description_entries ds
unfolding ini_descriptions
ini_descriptions-entries [] = refl
ini_descriptions-entries ((language, text) ∷ ds) =
    rw (sanitize_header_value-visible text, ini_descriptions-entries ds) refl

ini_languages-entries : (meta : MmdbMetadata) → ini_languages meta ≡ language_entries meta.languages
unfolding ini_languages join_languages
ini_languages-entries meta = go meta.languages
  where
    go :
        (ls : List Bytes)
        → (elim ls as (λ _. List (Bytes × Bytes)) [
          | [] ↦ []
          | l ∷ ls' ↦ (codes "languages", sanitize_header_value (joined (codes ",") ls)) ∷ []
        ])
          ≡ language_entries ls
    go [] = refl
    go (l ∷ ls') =
        rw (sanitize_header_value-visible (joined (codes ",") (l ∷ ls')), joined-with_commas l ls')
          refl

module _ (ext : External) (version path : Bytes) (meta : MmdbMetadata) where
  open ext use {Double}

  pub ini_pairs-entries :
      (info : GeoIpDbMetadata Double)
      → ini_pairs ext version path meta info
        ≡ report_entries ext version path meta info (english_description meta)
  unfolding ini_pairs
  ini_pairs-entries info =
      rw
        (
          sanitize_header_value-visible path,
          sanitize_header_value-visible info.database_type,
          sanitize_header_value-visible (english_description meta),
          ini_languages-entries meta,
          ini_descriptions-entries meta.description,
        )
        refl
