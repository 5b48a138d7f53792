-- ===== src/Geoip/CheckDb/Ini.antt =====
-- The INI report read back.
use nshgeoip.Prelude.{
  ◌==◌, All, All-append, All-mono, Bytes, codes, Without, split_first-Without, to_string-IsDigit,
  IsDigit, to_string, split_first, ℕ, ◌≡◌, refl, sym, ap, ◌∙◌, ◌≢◌, Bool, true, not, ◌&&◌, Option,
  some, List, [], ◌∷◌, ◌++◌, map, append_assoc, arith,
}
use nshgeoip.Text.{sanitize_header_value}
use nshgeoip.Text.Clean.{IsPlain, sanitize_header_value-IsPlain}
use nshgeoip.External.{External}
use nshgeoip.Config.File.{getlines}
use nshgeoip.Config.Written.{getlines-append}
use nshgeoip.Geoip.{GeoIpDbMetadata}
use nshgeoip.Geoip.CheckDb.{
  join_languages, english_description, lines_of, ini_descriptions, ini_languages, ini_pairs,
  print_metadata_ini, MmdbMetadata,
}
use nshgeoip.Geoip.CheckDb.English.{english_description-IsFirst, IsFirst}
use nshgeoip.Geoip.CheckDb.Entries.{report_entries, ini_pairs-entries}

-- A reader: the lines, each split at its first equals sign.
unfoldable pub read_ini : Bytes → List (Option (Bytes × Bytes))
read_ini file = map (split_first b'=') (getlines file)

-- A pair that stays on its line.
abbrev pub IsOnOneLine : Bytes × Bytes → Type 0
IsOnOneLine (key, value) = Without 10 key × (Without b'=' key × Without 10 value)

read_ini-lines_of :
    (ps : List (Bytes × Bytes)) → All IsOnOneLine ps → read_ini (lines_of ps) ≡ map some ps
unfolding read_ini getlines
read_ini-lines_of [] h = refl
read_ini-lines_of ((key, value) ∷ ps) (h, hs) =
    ap (map (split_first b'=')) (
      ap getlines (sym (append_assoc key (b'=' ∷ value) (10 ∷ lines_of ps)))
      ∙ getlines-append (key ++ b'=' ∷ value) (lines_of ps)
          (All-append _ key (b'=' ∷ value) h.0 (omega arith, h.1.1)))
    ∙ ap (λ p. p ∷ map (split_first b'=') (getlines (lines_of ps)))
        (split_first-Without b'=' key value h.1.0)
    ∙ ap (λ t. some (key, value) ∷ t) (read_ini-lines_of ps hs)

clean_line : (s : Bytes) → Without 10 (sanitize_header_value s)
clean_line s =
    All-mono IsPlain (λ x. x ≢ 10) (λ x h. omega (arith, h)) (sanitize_header_value s)
      (sanitize_header_value-IsPlain s)

digits_line : (n : ℕ) → Without 10 (to_string n)
digits_line n =
    All-mono IsDigit (λ x. x ≢ 10) (λ x h. omega (arith, h)) (to_string n) (to_string-IsDigit n)

is_key : Bytes → Bool
is_key [] = true
is_key (c ∷ s) = not (c == 10) && (not (c == b'=') && is_key s)

is_key-Without : (key : Bytes) → is_key key ≡ true → Without 10 key × Without b'=' key
unfolding is_key
is_key-Without [] e = (tt, tt)
is_key-Without (c ∷ s) e = ground (arith, is_key-Without s)

key_line : (key value : Bytes) → is_key key ≡ true → Without 10 value → IsOnOneLine (key, value)
key_line key value e h = let (a, b) = is_key-Without key e in (a, (b, h))

-- What the printer relies on: the library's version, the date and the age are single lines, and the
-- language codes of the file have neither a line break nor an equals sign.
pub record IsPrintable (version build_time age : Bytes) (meta : MmdbMetadata) : Type 0 where
  pub version_line : Without 10 version
  pub date_line : Without 10 build_time
  pub age_line : Without 10 age
  pub language_codes : All (λ d. Without 10 d.0 × Without b'=' d.0) meta.description

descriptions-IsOnOneLine :
    (ds : List (Bytes × Bytes))
    → All (λ d. Without 10 d.0 × Without b'=' d.0) ds
    → All IsOnOneLine (ini_descriptions ds)
unfolding ini_descriptions
descriptions-IsOnOneLine [] h = tt
descriptions-IsOnOneLine ((language, text) ∷ ds) (h, hs) = (
  (
    All-append _ (codes "description_") language (omega arith) h.0,
    (All-append _ (codes "description_") language (omega arith) h.1, clean_line text),
  ),
  descriptions-IsOnOneLine ds hs,
)

languages-IsOnOneLine : (meta : MmdbMetadata) → All IsOnOneLine (ini_languages meta)
unfolding ini_languages is_key
languages-IsOnOneLine meta = go meta.languages
  where
    go :
        (ls : List Bytes)
        → All IsOnOneLine (elim ls as (λ _. List (Bytes × Bytes)) [
          | [] ↦ []
          | l ∷ ls' ↦
              (codes "languages", sanitize_header_value (join_languages meta (codes ","))) ∷ []
        ])
    go [] = tt
    go (l ∷ ls') = (key_line (codes "languages") _ refl (clean_line _), tt)

module _ (ext : External) (version path : Bytes) (meta : MmdbMetadata) where
  open ext use {Double, fixed}

  module _ (info : GeoIpDbMetadata Double)
      (p : IsPrintable version info.build_time (fixed 1 info.age_days) meta) where
    pairs-IsOnOneLine : All IsOnOneLine (ini_pairs ext version path meta info)
    unfolding ini_pairs is_key
    pairs-IsOnOneLine = (
      key_line (codes "path") _ refl (clean_line path),
      (
        key_line (codes "libmaxminddb_version") _ refl (p.version_line),
        (
          key_line (codes "database_type") _ refl (clean_line info.database_type),
          (
            key_line (codes "ip_version") _ refl (digits_line meta.ip_version),
            (
              key_line (codes "binary_format_major_version") _ refl
                  (digits_line meta.binary_format_major_version),
              (
                key_line (codes "binary_format_minor_version") _ refl
                    (digits_line meta.binary_format_minor_version),
                (
                  key_line (codes "node_count") _ refl (digits_line meta.node_count),
                  (
                    key_line (codes "record_size") _ refl (digits_line meta.record_size),
                    (
                      key_line (codes "build_epoch") _ refl (digits_line info.build_epoch),
                      (
                        key_line (codes "build_date") _ refl (p.date_line),
                        (
                          key_line (codes "age_days") _ refl (p.age_line),
                          (
                            key_line (codes "age_ms") _ refl (digits_line info.age_ms),
                            (
                              key_line (codes "age_ns") _ refl (digits_line info.age_ns),
                              All-append _ (ini_languages meta) _ (languages-IsOnOneLine meta) (
                                key_line (codes "description") _ refl
                                    (clean_line (english_description meta)),
                                descriptions-IsOnOneLine meta.description p.language_codes,
                              ),
                            ),
                          ),
                        ),
                      ),
                    ),
                  ),
                ),
              ),
            ),
          ),
        ),
      ),
    )

    -- Whatever bytes the path and the strings of the file hold, if the library's version, the date and
    -- the age are single lines and the language codes of the descriptions hold neither a line break
    -- nor an equals sign: a reader that splits the INI report into lines, and each line at its first
    -- equals sign, gets exactly these keys with these values, in order; strings of the file without
    -- control bytes, `languages` only if there are some, `description` the text of the first entry
    -- whose language is "en", or empty, and one line for each description.
    pub print_metadata_ini-read :
        (english : Bytes) × IsFirst (codes "en") meta.description english
        × (read_ini (print_metadata_ini ext version path meta info)
            ≡ map some (report_entries ext version path meta info english))
    unfolding print_metadata_ini
    print_metadata_ini-read = (
      english_description meta,
      english_description-IsFirst meta,
      read_ini-lines_of (ini_pairs ext version path meta info) pairs-IsOnOneLine
          ∙ ap (map some) (ini_pairs-entries ext version path meta info),
    )
