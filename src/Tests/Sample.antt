-- ===== src/Tests/Sample.antt =====
-- A small world for the tests: two known addresses, and databases whose handle is a number.
use nshgeoip.Prelude.{
  ◌==◌, if◌then◌else◌, Bytes, codes, to_string, equal, ℕ, ◌-◌, ◌*◌, ◌/◌, ◌%◌, ◌^◌, ◌&&◌, Option,
  none, some, List, [], ◌∷◌,
}
use nshgeoip.Ip.{Family, af_inet, ParsedAddr}
use nshgeoip.External.{
  LookupResult, not_found, found_entry, EntryData, no_data, utf8_string, uint32, External,
}
use nshgeoip.Geoip.{GeoIpDatabases}
use nshgeoip.Http.Request.{HttpRequest}
use nshgeoip.Server.Connection.{Context}

abbrev pub sample_pton : Family → Bytes → Option Bytes
sample_pton af_inet s =
    if equal s (codes "8.8.8.8")
    then some (8 ∷ 8 ∷ 8 ∷ 8 ∷ [])
    else if equal s (codes "10.0.0.1")
    then some (10 ∷ 0 ∷ 0 ∷ 1 ∷ [])
    else none
sample_pton _ s = none

-- Handle 1 is a country database, 2 an ASN database, 3 a city database; 10.0.0.1 is in none.
abbrev pub sample_lookup : ℕ → ParsedAddr → LookupResult ℕ
sample_lookup h addr = if equal addr.address (10 ∷ 0 ∷ 0 ∷ 1 ∷ []) then not_found else found_entry h

abbrev pub sample_value : ℕ → List Bytes → EntryData ℕ
sample_value h [] = no_data
sample_value h (key ∷ keys) =
    if h == 2 && equal key (codes "autonomous_system_number")
    then uint32 15169
    else if h == 1 && equal key (codes "country")
    then utf8_string (codes "US")
    else if h == 3 && equal key (codes "city")
    then utf8_string (codes "A\r\nB")
    else no_data

abbrev pub sample_ext : External
sample_ext = record {
  Handle = ℕ;
  Entry = ℕ;
  Double = ℕ;
  inet_pton = sample_pton;
  lookup_sockaddr = sample_lookup;
  get_value = sample_value;
  database_type = λ h. codes "GeoLite2";
  build_epoch = λ h. 1000;
  utc_text = λ t. codes "1970-01-01T00:16:40Z";
  difftime = λ a b. a - b;
  number = λ n. n;
  divide = λ a b. a / b;
  multiply = λ a b. a * b;
  to_uint64 = λ n. n % 2 ^ 64;
  fixed = λ p n. to_string n;
  general = λ p n. to_string n;
}

abbrev pub sample_databases : GeoIpDatabases ℕ
sample_databases = record { country = some 1; asn = some 2; city = some 3; closed = [] }

abbrev pub sample_context : Context sample_ext
sample_context = record {
  max_request_bytes = 8192;
  databases = sample_databases;
  now = 87400;
  uptime = 5;
  version = codes "1.0.0";
  mmdb_lib_version = codes "1.12.2";
}

abbrev pub sample_request : HttpRequest
sample_request = record {
  method = codes "GET";
  path = codes "/lookup";
  query = (codes "ip", codes "8.8.8.8") ∷ [];
  accept = codes "text/plain";
}
