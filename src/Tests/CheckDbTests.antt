-- ===== src/Tests/CheckDbTests.antt =====
-- The report of --check-db on a small database.
use nshgeoip.Prelude.{Bytes, codes, to_string, equal, ℕ, ◌≡◌, refl, none, some, [], ◌∷◌, map, arith}
use nshgeoip.Text.{hex_digit, json_escape_byte, json_escape, sanitize_header_value}
use nshgeoip.External.{failed}
use nshgeoip.Config.File.{getlines}
use nshgeoip.Geoip.{make_metadata, GeoIpDbMetadata}
use nshgeoip.Geoip.CheckDb.{
  english_description, row, lines_of, ini_descriptions, print_metadata_table, print_metadata_json,
  print_metadata_ini, print_db_metadata, MmdbMetadata, json,
}
use nshgeoip.Geoip.CheckDb.Tokens.{lex, to_string-IsNumber, outside}
use nshgeoip.Geoip.CheckDb.English.{IsFirst}
use nshgeoip.Geoip.CheckDb.Json.{report_tokens, print_metadata_json-lex}
use nshgeoip.Geoip.CheckDb.Entries.{report_entries}
use nshgeoip.Geoip.CheckDb.Ini.{read_ini, print_metadata_ini-read, IsPrintable}
use nshgeoip.Tests.Sample.{sample_ext}

abbrev sample_metadata : MmdbMetadata
sample_metadata = record {
  ip_version = 6;
  binary_format_major_version = 2;
  binary_format_minor_version = 0;
  node_count = 1234;
  record_size = 28;
  languages = codes "de" ∷ codes "en" ∷ [];
  description = (codes "de", codes "L\"nder") ∷ (codes "en", codes "Countries\nipv4=1") ∷ [];
}

abbrev sample_info : GeoIpDbMetadata ℕ
sample_info = make_metadata sample_ext 87400 1

table_test :
    print_metadata_table sample_ext
      (codes "1.12.2")
      (codes "/a")
      (record sample_metadata {
        languages = [];
        description = (codes "english-uk", codes "A") ∷ [];
      })
      sample_info
    ≡ codes
        "Path            : /a\nlibmaxminddb    : 1.12.2\nDatabase type   : GeoLite2\nIP version      : 6\nBinary format   : 2.0\nNode count      : 1234\nRecord size     : 28 bits\nBuild epoch     : 1000\nBuild date      : 1970-01-01T00:16:40Z\nAge             : 1 days\nAge (ms)        : 86400000\nAge (ns)        : 86400000000000\nDescription [english-uk]: A\n"
unfolding print_metadata_table row make_metadata to_string
table_test = refl

json_test :
    print_metadata_json sample_ext (codes "1.12.2") (codes "/a") sample_metadata sample_info
    ≡ codes
        "{\"path\":\"/a\",\"libmaxminddb_version\":\"1.12.2\",\"database_type\":\"GeoLite2\",\"ip_version\":6,\"binary_format_major_version\":2,\"binary_format_minor_version\":0,\"node_count\":1234,\"record_size\":28,\"build_epoch\":1000,\"build_date\":\"1970-01-01T00:16:40Z\",\"age_days\":1,\"age_ms\":86400000,\"age_ns\":86400000000000,\"languages\":[\"de\",\"en\"],\"description\":\"Countries\\nipv4=1\",\"description_list\":[{\"language\":\"de\",\"description\":\"L\\\"nder\"},{\"language\":\"en\",\"description\":\"Countries\\nipv4=1\"}]}\n"
unfolding print_metadata_json json_escape json_escape_byte hex_digit english_description equal
    make_metadata to_string
json_test = refl

-- A language code with a line break puts a line of its own into the INI report.
language_breaks_lines :
    getlines (lines_of (ini_descriptions ((codes "x=1\nnode_count", codes "7") ∷ [])))
    ≡ codes "description_x=1" ∷ codes "node_count=7" ∷ []
unfolding getlines ini_descriptions sanitize_header_value
language_breaks_lines = refl

unopened_test :
    print_db_metadata sample_ext
      (codes "1.12.2")
      87400
      (codes "/a")
      json
      (λ h. sample_metadata)
      (failed (codes "gone"))
    ≡ record { out = []; err = some (codes "failed to open database '/a': gone"); closed = none }
unfolding print_db_metadata
unopened_test = refl

print_metadata_json-lex_example :
    (english : Bytes) × IsFirst (codes "en") sample_metadata.description english
    × (lex outside
          (print_metadata_json sample_ext (codes "1.12.2") (codes "/a") sample_metadata sample_info)
        ≡ report_tokens sample_ext
            (codes "1.12.2")
            (codes "/a")
            sample_metadata
            sample_info
            english)
print_metadata_json-lex_example =
    print_metadata_json-lex sample_ext (codes "1.12.2") (codes "/a") sample_metadata sample_info
      (to_string-IsNumber sample_info.age_days)

sample-IsPrintable :
    IsPrintable
      (codes "1.12.2")
      sample_info.build_time
      (to_string sample_info.age_days)
      sample_metadata
unfolding make_metadata to_string
sample-IsPrintable = record {
  version_line = omega arith;
  date_line = omega arith;
  age_line = omega arith;
  language_codes = omega arith;
}

print_metadata_ini-read_example :
    (english : Bytes) × IsFirst (codes "en") sample_metadata.description english
    × (read_ini
          (print_metadata_ini sample_ext (codes "1.12.2") (codes "/a") sample_metadata sample_info)
        ≡ map some (
            report_entries sample_ext
              (codes "1.12.2")
              (codes "/a")
              sample_metadata
              sample_info
              english))
print_metadata_ini-read_example =
    print_metadata_ini-read sample_ext (codes "1.12.2") (codes "/a") sample_metadata sample_info
      sample-IsPrintable
