-- ===== src/Geoip/CheckDb.antt =====
-- src/geoip.cpp: `print_db_metadata`, the report of --check-db, and its three printers.
pub mod Tokens
pub mod English
pub mod Entries
pub mod Json
pub mod Ini
use nshgeoip.Prelude.{
  if◌then◌else◌, Bytes, codes, streamed, to_string, equal, ℕ, zero, suc, Option, none, some, List,
  [], ◌∷◌, ◌++◌, map,
}
use nshgeoip.Text.{json_escape, sanitize_header_value}
use nshgeoip.External.{OpenResult, opened, failed, External}
use nshgeoip.Geoip.{open_error, make_metadata, GeoIpDbMetadata}

-- What the printers read of libmaxminddb's MMDB_metadata_s besides the type and the build time: the
-- numbers, `languages` and `description` (language and text). Its C strings hold no NUL.
pub record MmdbMetadata : Type 0 where
  pub ip_version : ℕ
  pub binary_format_major_version : ℕ
  pub binary_format_minor_version : ℕ
  pub node_count : ℕ
  pub record_size : ℕ
  pub languages : List Bytes
  pub description : List (Bytes × Bytes)

pub data DbMetadataFormat : Type 0 where
  table json ini : DbMetadataFormat

-- The loops that write a separator before each element but the first.
abbrev pub followed : Bytes → List Bytes → Bytes
followed sep [] = []
followed sep (s ∷ ss) = sep ++ (s ++ followed sep ss)

abbrev pub joined : Bytes → List Bytes → Bytes
joined sep [] = []
joined sep (s ∷ ss) = s ++ followed sep ss

unfoldable pub join_languages : MmdbMetadata → Bytes → Bytes
join_languages meta sep = joined sep meta.languages

abbrev pub description_in : Bytes → List (Bytes × Bytes) → Bytes
description_in language [] = []
description_in language ((l, text) ∷ ds) =
    if equal l language then text else description_in language ds

unfoldable pub english_description : MmdbMetadata → Bytes
english_description meta = description_in (codes "en") meta.description

-- `%-16s`.
abbrev pub padded : ℕ → Bytes → Bytes
padded zero s = s
padded (suc n) [] = b' ' ∷ padded n []
padded (suc n) (c ∷ s) = c ∷ padded n s

unfoldable pub row : Bytes → Bytes → Bytes
row label value = padded 16 label ++ (codes ": " ++ (value ++ 10 ∷ []))

abbrev pub quoted : Bytes → Bytes
quoted s = b'"' ∷ (json_escape s ++ b'"' ∷ [])

abbrev pub json_description : Bytes × Bytes → Bytes
json_description (language, text) = streamed (
    codes "{\"language\":\""
    ∷ json_escape language
    ∷ codes "\",\"description\":\""
    ∷ json_escape text
    ∷ codes "\"}"
    ∷ [])

abbrev table_descriptions : List (Bytes × Bytes) → Bytes
table_descriptions [] = []
table_descriptions ((language, text) ∷ ds) =
    row (codes "Description [" ++ (language ++ codes "]")) text ++ table_descriptions ds

-- `printf("key=value\n")` for each pair.
abbrev pub lines_of : List (Bytes × Bytes) → Bytes
lines_of [] = []
lines_of ((key, value) ∷ ps) = key ++ b'=' ∷ (value ++ 10 ∷ lines_of ps)

-- The loop over the descriptions.
unfoldable pub ini_descriptions : List (Bytes × Bytes) → List (Bytes × Bytes)
ini_descriptions [] = []
ini_descriptions ((language, text) ∷ ds) =
    (codes "description_" ++ language, sanitize_header_value text) ∷ ini_descriptions ds

unfoldable pub ini_languages : MmdbMetadata → List (Bytes × Bytes)
ini_languages meta = elim meta.languages [
  | [] ↦ []
  | l ∷ ls ↦ (codes "languages", sanitize_header_value (join_languages meta (codes ","))) ∷ []
]

module _ (ext : External) (version : Bytes) where
  open ext use {Handle, Double, fixed}

  unfoldable pub print_metadata_table : Bytes → MmdbMetadata → GeoIpDbMetadata Double → Bytes
  print_metadata_table path meta info = streamed (
      row (codes "Path") path
      ∷ row (codes "libmaxminddb") version
      ∷ row (codes "Database type") info.database_type
      ∷ row (codes "IP version") (to_string meta.ip_version)
      ∷ row (codes "Binary format") (
          to_string meta.binary_format_major_version
          ++ (b'.' ∷ to_string meta.binary_format_minor_version))
      ∷ row (codes "Node count") (to_string meta.node_count)
      ∷ row (codes "Record size") (to_string meta.record_size ++ codes " bits")
      ∷ row (codes "Build epoch") (to_string info.build_epoch)
      ∷ row (codes "Build date") info.build_time
      ∷ row (codes "Age") (fixed 1 info.age_days ++ codes " days")
      ∷ row (codes "Age (ms)") (to_string info.age_ms)
      ∷ row (codes "Age (ns)") (to_string info.age_ns)
      ∷ (elim meta.languages [
        | [] ↦ []
        | l ∷ ls ↦ row (codes "Languages") (join_languages meta (codes ", "))
      ])
      ∷ table_descriptions meta.description
      ∷ [])

  unfoldable pub print_metadata_json : Bytes → MmdbMetadata → GeoIpDbMetadata Double → Bytes
  print_metadata_json path meta info = streamed (
      codes "{\"path\":\""
      ∷ json_escape path
      ∷ codes "\",\"libmaxminddb_version\":\""
      ∷ json_escape version
      ∷ codes "\",\"database_type\":\""
      ∷ json_escape info.database_type
      ∷ codes "\",\"ip_version\":"
      ∷ to_string meta.ip_version
      ∷ codes ",\"binary_format_major_version\":"
      ∷ to_string meta.binary_format_major_version
      ∷ codes ",\"binary_format_minor_version\":"
      ∷ to_string meta.binary_format_minor_version
      ∷ codes ",\"node_count\":"
      ∷ to_string meta.node_count
      ∷ codes ",\"record_size\":"
      ∷ to_string meta.record_size
      ∷ codes ",\"build_epoch\":"
      ∷ to_string info.build_epoch
      ∷ codes ",\"build_date\":\""
      ∷ json_escape info.build_time
      ∷ codes "\",\"age_days\":"
      ∷ fixed 1 info.age_days
      ∷ codes ",\"age_ms\":"
      ∷ to_string info.age_ms
      ∷ codes ",\"age_ns\":"
      ∷ to_string info.age_ns
      ∷ codes ",\"languages\":["
      ∷ joined (codes ",") (map quoted meta.languages)
      ∷ codes "],\"description\":\""
      ∷ json_escape (english_description meta)
      ∷ codes "\",\"description_list\":["
      ∷ joined (codes ",") (map json_description meta.description)
      ∷ codes "]}\n"
      ∷ [])

  -- The keys and values, in order.
  unfoldable pub ini_pairs : Bytes → MmdbMetadata → GeoIpDbMetadata Double → List (Bytes × Bytes)
  unfolding ini_languages ini_descriptions
  ini_pairs path meta info =
      (codes "path", sanitize_header_value path)
      ∷ (codes "libmaxminddb_version", version)
      ∷ (codes "database_type", sanitize_header_value info.database_type)
      ∷ (codes "ip_version", to_string meta.ip_version)
      ∷ (codes "binary_format_major_version", to_string meta.binary_format_major_version)
      ∷ (codes "binary_format_minor_version", to_string meta.binary_format_minor_version)
      ∷ (codes "node_count", to_string meta.node_count)
      ∷ (codes "record_size", to_string meta.record_size)
      ∷ (codes "build_epoch", to_string info.build_epoch)
      ∷ (codes "build_date", info.build_time)
      ∷ (codes "age_days", fixed 1 info.age_days)
      ∷ (codes "age_ms", to_string info.age_ms)
      ∷ (codes "age_ns", to_string info.age_ns)
      ∷ (ini_languages meta
          ++ ((codes "description", sanitize_header_value (english_description meta))
              ∷ ini_descriptions meta.description))

  unfoldable pub print_metadata_ini : Bytes → MmdbMetadata → GeoIpDbMetadata Double → Bytes
  unfolding ini_pairs
  print_metadata_ini path meta info = lines_of (ini_pairs path meta info)

  unfoldable pub print_metadata :
      DbMetadataFormat → Bytes → MmdbMetadata → GeoIpDbMetadata Double → Bytes
  unfolding print_metadata_table print_metadata_json print_metadata_ini
  print_metadata table path meta info = print_metadata_table path meta info
  print_metadata json path meta info = print_metadata_json path meta info
  print_metadata ini path meta info = print_metadata_ini path meta info

  -- What goes to stdout, `err` if the function returns false, and the handle that is closed.
  pub record Printed : Type 0 where
    pub out : Bytes
    pub err : Option Bytes
    pub closed : Option Handle

  unfoldable pub print_db_metadata :
      ℕ → Bytes → DbMetadataFormat → (Handle → MmdbMetadata) → OpenResult Handle → Printed
  unfolding print_metadata make_metadata
  print_db_metadata now path format metadata (failed reason) = record {
    out = [];
    err = some (open_error path reason);
    closed = none;
  }
  print_db_metadata now path format metadata (opened h) = record {
    out = print_metadata format path (metadata h) (make_metadata ext now h);
    err = none;
    closed = some h;
  }
