-- ===== src/External.antt =====
-- What the program calls and does not contain: libmaxminddb (maxminddb.h), inet_pton(), the
-- calendar and the floating point of the C and C++ libraries. All of it is a parameter.
use nshgeoip.Prelude.{Bytes, ℕ, List}
use nshgeoip.Ip.{InetPton, ParsedAddr}

-- `MMDB_lookup_sockaddr`: an error status, no entry for the address, or its entry.
pub data LookupResult (Entry : Type 0) : Type 0 where
  lookup_error : LookupResult Entry
  not_found : LookupResult Entry
  found_entry : Entry → LookupResult Entry

-- `MMDB_get_value`: no data (an error status included), or data of one of the types.
pub data EntryData (Double : Type 0) : Type 0 where
  no_data : EntryData Double
  utf8_string : Bytes → EntryData Double
  uint32 : ℕ → EntryData Double
  uint16 : ℕ → EntryData Double
  double : Double → EntryData Double
  other_type : EntryData Double

-- `MMDB_open`: a handle, or the text of `MMDB_strerror`.
pub data OpenResult (Handle : Type 0) : Type 0 where
  opened : Handle → OpenResult Handle
  failed : Bytes → OpenResult Handle

pub record External : Type 1 where
  pub Handle : Type 0
  pub Entry : Type 0
  pub Double : Type 0
  pub inet_pton : InetPton
  pub lookup_sockaddr : Handle → ParsedAddr → LookupResult Entry
  -- The keys of the path, in order.
  pub get_value : Entry → List Bytes → EntryData Double
  pub database_type : Handle → Bytes
  pub build_epoch : Handle → ℕ
  -- `gmtime_r` and `strftime` with "%Y-%m-%dT%H:%M:%SZ".
  pub utc_text : ℕ → Bytes
  -- `std::difftime(now, then)`, and the operations on `double`.
  pub difftime : ℕ → ℕ → Double
  pub number : ℕ → Double
  pub divide : Double → Double → Double
  pub multiply : Double → Double → Double
  pub to_uint64 : Double → ℕ
  -- `std::fixed << std::setprecision(p)`, and `std::setprecision(p)` alone.
  pub fixed : ℕ → Double → Bytes
  pub general : ℕ → Double → Bytes
