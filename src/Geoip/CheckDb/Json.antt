-- ===== src/Geoip/CheckDb/Json.antt =====
-- The JSON report read back.
use nshgeoip.Prelude.{
  Bytes, codes, streamed, to_string, ◌≡◌, refl, sym, ap, ◌∙◌, List, [], ◌∷◌, ◌++◌, map,
  append_assoc,
}
use nshgeoip.Text.{json_escape}
use nshgeoip.Text.Json.{read_step, plain}
use nshgeoip.External.{External}
use nshgeoip.Geoip.{GeoIpDbMetadata}
use nshgeoip.Geoip.CheckDb.{
  followed, joined, english_description, quoted, json_description, print_metadata_json,
  MmdbMetadata,
}
use nshgeoip.Geoip.CheckDb.Tokens.{
  start, lex, lex-json_escape, IsNumber, lex-number, to_string-IsNumber, Token, open_brace,
  close_brace, open_bracket, close_bracket, colon, comma, text, number, outside, inside,
}
use nshgeoip.Geoip.CheckDb.English.{english_description-IsFirst, IsFirst}

-- The tokens of an array.
abbrev pub more_items : {A : Type 0} → (A → List Token) → List A → List Token
more_items f [] = []
more_items f (x ∷ xs) = comma ∷ (f x ++ more_items f xs)

abbrev pub items : {A : Type 0} → (A → List Token) → List A → List Token
items f [] = []
items f (x ∷ xs) = f x ++ more_items f xs

abbrev pub description_tokens : Bytes × Bytes → List Token
description_tokens (language, value) =
    open_brace
    ∷ text (codes "language")
    ∷ colon
    ∷ text language
    ∷ comma
    ∷ text (codes "description")
    ∷ colon
    ∷ text value
    ∷ close_brace
    ∷ []

abbrev pub text_field : Bytes → Bytes → List Token → List Token
text_field key value rest = comma ∷ text key ∷ colon ∷ text value ∷ rest

abbrev pub number_field : Bytes → Bytes → List Token → List Token
number_field key value rest = comma ∷ text key ∷ colon ∷ number value ∷ rest

module _ {A : Type 0} (render : A → Bytes) (f : A → List Token)
    (reads_one : (a : A) (rest : Bytes)
      → lex outside (render a ++ rest) ≡ f a ++ lex outside rest) where
  more_items-lex :
      (xs : List A) (rest : Bytes)
      → lex outside (followed (codes ",") (map render xs) ++ rest)
        ≡ more_items f xs ++ lex outside rest
  unfolding lex start
  more_items-lex [] rest = refl
  more_items-lex (x ∷ xs) rest =
      ap (λ t. comma ∷ t)
        (ap (lex outside) (append_assoc (render x) _ rest)
          ∙ reads_one x _
          ∙ ap (λ t. f x ++ t) (more_items-lex xs rest)
          ∙ sym (append_assoc (f x) (more_items f xs) (lex outside rest)))

  items-lex :
      (xs : List A) (rest : Bytes)
      → lex outside (joined (codes ",") (map render xs) ++ rest) ≡ items f xs ++ lex outside rest
  items-lex [] rest = refl
  items-lex (x ∷ xs) rest =
      ap (lex outside) (append_assoc (render x) _ rest)
      ∙ reads_one x _
      ∙ ap (λ t. f x ++ t) (more_items-lex xs rest)
      ∙ sym (append_assoc (f x) (more_items f xs) (lex outside rest))

lex-quoted : (s rest : Bytes) → lex outside (quoted s ++ rest) ≡ text s ∷ lex outside rest
unfolding lex start read_step
lex-quoted s rest =
    ap (lex (inside plain [])) (append_assoc (json_escape s) (b'"' ∷ []) rest)
    ∙ lex-json_escape s rest

lex-json_description :
    (d : Bytes × Bytes) (rest : Bytes)
    → lex outside (json_description d ++ rest) ≡ description_tokens d ++ lex outside rest
unfolding lex start read_step
lex-json_description (language, value) rest =
    ap (λ t. open_brace ∷ text (codes "language") ∷ colon ∷ t)
      (ap (lex (inside plain [])) (append_assoc (json_escape language) _ rest)
        ∙ lex-json_escape language _
        ∙ ap (λ t. text language ∷ comma ∷ text (codes "description") ∷ colon ∷ t)
            (ap (lex (inside plain [])) (append_assoc (json_escape value) _ rest)
              ∙ lex-json_escape value _))

-- One value, and what follows it.
of_text :
    (s rest : Bytes) {ts : List Token}
    → lex outside rest ≡ ts
    → lex (inside plain []) (json_escape s ++ b'"' ∷ rest) ≡ text s ∷ ts
of_text s rest e = lex-json_escape s rest ∙ ap (λ t. text s ∷ t) e

of_number :
    (s rest : Bytes) {ts : List Token}
    → IsNumber s
    → comma ∷ lex outside rest ≡ ts
    → lex outside (s ++ b',' ∷ rest) ≡ number s ∷ ts
of_number s rest i e = lex-number s rest i ∙ ap (λ t. number s ∷ t) e

under :
    (key : Bytes) {ts us : List Token}
    → ts ≡ us
    → comma ∷ text key ∷ colon ∷ ts ≡ comma ∷ text key ∷ colon ∷ us
under key e = ap (λ t. comma ∷ text key ∷ colon ∷ t) e

module _ (ext : External) (version path : Bytes) (meta : MmdbMetadata) where
  open ext use {Double, fixed}

  -- From the languages on.
  abbrev arrays_text : Bytes
  arrays_text = streamed (
      joined (codes ",") (map quoted meta.languages)
      ∷ codes "],\"description\":\""
      ∷ json_escape (english_description meta)
      ∷ codes "\",\"description_list\":["
      ∷ joined (codes ",") (map json_description meta.description)
      ∷ codes "]}\n"
      ∷ [])

  abbrev pub arrays_tokens : Bytes → List Token
  arrays_tokens english =
      items (λ l. text l ∷ []) meta.languages
      ++ (close_bracket
          ∷ text_field (codes "description") english (
              comma
              ∷ text (codes "description_list")
              ∷ colon
              ∷ open_bracket
              ∷ (items description_tokens meta.description ++ close_bracket ∷ close_brace ∷ [])))

  arrays-lex : lex outside arrays_text ≡ arrays_tokens (english_description meta)
  unfolding lex start read_step
  arrays-lex =
      items-lex quoted (λ l. text l ∷ []) lex-quoted meta.languages _
      ∙ ap (λ t. items (λ l. text l ∷ []) meta.languages ++ close_bracket ∷ t)
          (under (codes "description") (
            of_text (english_description meta) _ (
              under (codes "description_list") (
                ap (λ t. open_bracket ∷ t)
                  (items-lex json_description description_tokens lex-json_description
                    meta.description _)))))

  -- What the report says.
  abbrev pub report_tokens : GeoIpDbMetadata Double → Bytes → List Token
  report_tokens info english =
      open_brace
      ∷ text (codes "path")
      ∷ colon
      ∷ text path
      ∷ (text_field (codes "libmaxminddb_version") version (
          text_field (codes "database_type") info.database_type (
            number_field (codes "ip_version") (to_string meta.ip_version) (
              number_field (codes "binary_format_major_version")
                (to_string meta.binary_format_major_version)
                (number_field (codes "binary_format_minor_version")
                  (to_string meta.binary_format_minor_version)
                  (number_field (codes "node_count") (to_string meta.node_count) (
                    number_field (codes "record_size") (to_string meta.record_size) (
                      number_field (codes "build_epoch") (to_string info.build_epoch) (
                        text_field (codes "build_date") info.build_time (
                          number_field (codes "age_days") (fixed 1 info.age_days) (
                            number_field (codes "age_ms") (to_string info.age_ms) (
                              number_field (codes "age_ns") (to_string info.age_ns) (
                                comma
                                ∷ text (codes "languages")
                                ∷ colon
                                ∷ open_bracket
                                ∷ arrays_tokens english)))))))))))))

  report-lex :
      (info : GeoIpDbMetadata Double)
      → IsNumber (fixed 1 info.age_days)
      → lex outside (print_metadata_json ext version path meta info)
        ≡ report_tokens info (english_description meta)
  unfolding print_metadata_json lex start read_step
  report-lex info h =
      ap (λ t. open_brace ∷ text (codes "path") ∷ colon ∷ t)
        (of_text (path) _ (
          under (codes "libmaxminddb_version") (
            of_text version _ (
              under (codes "database_type") (
                of_text info.database_type _ (
                  under (codes "ip_version") (
                    of_number (to_string meta.ip_version) _ (to_string-IsNumber meta.ip_version) (
                      under (codes "binary_format_major_version") (
                        of_number (to_string meta.binary_format_major_version) _
                          (to_string-IsNumber meta.binary_format_major_version)
                          (under (codes "binary_format_minor_version") (
                            of_number (to_string meta.binary_format_minor_version) _
                              (to_string-IsNumber meta.binary_format_minor_version)
                              (under (codes "node_count") (
                                of_number (to_string meta.node_count) _
                                  (to_string-IsNumber meta.node_count)
                                  (under (codes "record_size") (
                                    of_number (to_string meta.record_size) _
                                      (to_string-IsNumber meta.record_size)
                                      (under (codes "build_epoch") (
                                        of_number (to_string info.build_epoch) _
                                          (to_string-IsNumber info.build_epoch)
                                          (under (codes "build_date") (
                                            of_text info.build_time _ (
                                              under (codes "age_days") (
                                                of_number (fixed 1 info.age_days) _ h (
                                                  under (codes "age_ms") (
                                                    of_number (to_string info.age_ms) _
                                                      (to_string-IsNumber info.age_ms)
                                                      (under (codes "age_ns") (
                                                        of_number (to_string info.age_ns) _
                                                          (to_string-IsNumber info.age_ns)
                                                          (under (codes "languages") (
                                                            ap (λ t. open_bracket ∷ t)
                                                            arrays-lex)))))))))))))))))))))))))))

  -- If the age in days is printed as a number: a JSON scanner reads the report of --check-db as one
  -- object with these keys and values in this order, all strings of the file as they are, whatever
  -- bytes they hold, both arrays complete, and `description` the text of the first entry whose language
  -- is "en", or empty if there is none.
  pub print_metadata_json-lex :
      (info : GeoIpDbMetadata Double)
      → IsNumber (fixed 1 info.age_days)
      → (english : Bytes) × IsFirst (codes "en") meta.description english
        × (lex outside (print_metadata_json ext version path meta info)
            ≡ report_tokens info english)
  print_metadata_json-lex info h =
      (english_description meta, english_description-IsFirst meta, report-lex info h)
