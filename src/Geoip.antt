-- ===== src/Geoip.antt =====
-- src/geoip.cpp and src/geoip.h: the three databases and the lookup. The mutex makes each
-- operation one step. A slot holds a handle exactly while its `*_open_` flag is set.
pub mod Fields
pub mod Handles
pub mod CheckDb
use nshgeoip.Prelude.{
  if◌then◌else◌, Bytes, codes, ℕ, Bool, true, false, not, Option, none, some, List, [], ◌∷◌, ◌++◌,
}
use nshgeoip.Ip.{ParsedAddr}
use nshgeoip.External.{
  LookupResult, lookup_error, not_found, found_entry, EntryData, utf8_string, uint32, uint16,
  double, OpenResult, opened, failed, External,
}

pub record GeoIpResult (Double : Type 0) : Type 0 where
  pub found : Bool
  pub country_code : Option Bytes
  pub country_name : Option Bytes
  pub continent_code : Option Bytes
  pub asn : Option ℕ
  pub as_org : Option Bytes
  pub city_name : Option Bytes
  pub postal_code : Option Bytes
  pub latitude : Option Double
  pub longitude : Option Double
  pub accuracy_radius : Option ℕ

-- The databases, and the handles that `MMDB_close` was called on.
pub record GeoIpDatabases (Handle : Type 0) : Type 0 where
  pub country : Option Handle
  pub asn : Option Handle
  pub city : Option Handle
  pub closed : List Handle

pub data Slot : Type 0 where
  country_slot asn_slot city_slot : Slot

pub record GeoIpDbMetadata (Double : Type 0) : Type 0 where
  pub database_type : Bytes
  pub build_epoch : ℕ
  pub build_time : Bytes
  pub age_days : Double
  pub age_ms : ℕ
  pub age_ns : ℕ

abbrev pub has_value {ℓ} : {A : Type ℓ} → Option A → Bool
has_value none = false
has_value (some a) = true

-- `if (open) MMDB_close(&handle)`.
abbrev pub close_slot : {Handle : Type 0} → Option Handle → List Handle → List Handle
close_slot none closed = closed
close_slot (some h) closed = h ∷ closed

-- `open_mmdb`'s error text.
abbrev pub open_error : Bytes → Bytes → Bytes
open_error path reason = codes "failed to open database '" ++ (path ++ (codes "': " ++ reason))

module _ {Handle : Type 0} where
  abbrev pub no_databases : GeoIpDatabases Handle
  no_databases = record { country = none; asn = none; city = none; closed = [] }

  -- The swap of `open_country`, `open_asn` and `open_city` under the unique lock.
  unfoldable pub install : GeoIpDatabases Handle → Slot → Handle → GeoIpDatabases Handle
  install db country_slot h = record db {
    country = some h;
    closed = close_slot db.country db.closed;
  }
  install db asn_slot h = record db { asn = some h; closed = close_slot db.asn db.closed }
  install db city_slot h = record db { city = some h; closed = close_slot db.city db.closed }

  -- `open_*`, and `reload_*`, which calls it: the databases, and `err` if it fails.
  unfoldable pub open_slot :
      GeoIpDatabases Handle
      → Slot
      → Bytes
      → OpenResult Handle
      → GeoIpDatabases Handle × Option Bytes
  open_slot db slot path (opened h) = (install db slot h, none)
  open_slot db slot path (failed reason) = (db, some (open_error path reason))

  -- The destructor: the handles closed at the end of the object's life.
  unfoldable pub destroy : GeoIpDatabases Handle → List Handle
  destroy db = close_slot db.city (close_slot db.asn (close_slot db.country db.closed))

module _ (ext : External) where
  open ext use {
    Handle, Entry, Double, lookup_sockaddr, get_value, utc_text, difftime, number, divide, multiply,
    to_uint64,
  }

  abbrev as_string : EntryData Double → Option Bytes
  as_string (utf8_string s) = some s
  as_string _ = none

  abbrev as_uint32 : EntryData Double → Option ℕ
  as_uint32 (uint32 n) = some n
  as_uint32 _ = none

  abbrev as_uint16 : EntryData Double → Option ℕ
  as_uint16 (uint16 n) = some n
  as_uint16 _ = none

  abbrev as_double : EntryData Double → Option Double
  as_double (double x) = some x
  as_double _ = none

  unfoldable pub get_string : Entry → List Bytes → Option Bytes
  get_string entry keys = as_string (get_value entry keys)

  unfoldable pub get_uint32 : Entry → List Bytes → Option ℕ
  get_uint32 entry keys = as_uint32 (get_value entry keys)

  unfoldable pub get_uint16 : Entry → List Bytes → Option ℕ
  get_uint16 entry keys = as_uint16 (get_value entry keys)

  unfoldable pub get_double : Entry → List Bytes → Option Double
  get_double entry keys = as_double (get_value entry keys)

  -- The assignments on a found entry; each overwrites its fields.
  unfoldable pub fill_country : Entry → GeoIpResult Double → GeoIpResult Double
  fill_country entry r = record r {
    country_code = get_string entry (codes "country" ∷ codes "iso_code" ∷ []);
    country_name = get_string entry (codes "country" ∷ codes "names" ∷ codes "en" ∷ []);
    continent_code = get_string entry (codes "continent" ∷ codes "code" ∷ []);
  }

  unfoldable pub fill_asn : Entry → GeoIpResult Double → GeoIpResult Double
  fill_asn entry r = record r {
    asn = get_uint32 entry (codes "autonomous_system_number" ∷ []);
    as_org = get_string entry (codes "autonomous_system_organization" ∷ []);
  }

  -- The flag is `country_open_`.
  unfoldable pub fill_city : Bool → Entry → GeoIpResult Double → GeoIpResult Double
  fill_city country_open entry r =
      let filled = record r {
        city_name = get_string entry (codes "city" ∷ codes "names" ∷ codes "en" ∷ []);
        postal_code = get_string entry (codes "postal" ∷ codes "code" ∷ []);
        latitude = get_double entry (codes "location" ∷ codes "latitude" ∷ []);
        longitude = get_double entry (codes "location" ∷ codes "longitude" ∷ []);
        accuracy_radius = get_uint16 entry (codes "location" ∷ codes "accuracy_radius" ∷ []);
      } in
      if not country_open then fill_country entry filled else filled

  abbrev pub empty_result : GeoIpResult Double
  empty_result = record {
    found = false;
    country_code = none;
    country_name = none;
    continent_code = none;
    asn = none;
    as_org = none;
    city_name = none;
    postal_code = none;
    latitude = none;
    longitude = none;
    accuracy_radius = none;
  }

  -- One database: `if (open && !db_error)`, then the three outcomes of the lookup. The state is
  -- the result and `db_error`.
  unfoldable pub consult :
      Option (LookupResult Entry)
      → (Entry → GeoIpResult Double → GeoIpResult Double)
      → GeoIpResult Double × Bool
      → GeoIpResult Double × Bool
  consult none fill s = s
  consult (some answer) fill (r, true) = (r, true)
  consult (some lookup_error) fill (r, false) = (r, true)
  consult (some not_found) fill (r, false) = (r, false)
  consult (some (found_entry entry)) fill (r, false) =
      (fill entry (record r { found = true }), false)

  abbrev pub ask : Option Handle → ParsedAddr → Option (LookupResult Entry)
  ask none addr = none
  ask (some h) addr = some (lookup_sockaddr h addr)

  -- The result and `db_error`.
  unfoldable pub lookup : GeoIpDatabases Handle → ParsedAddr → GeoIpResult Double × Bool
  unfolding consult
  lookup db addr = consult (ask db.city addr) (fill_city (has_value db.country)) (
      consult (ask db.asn addr) fill_asn
        (consult (ask db.country addr) fill_country (empty_result, false)))

  -- `make_metadata`, with the time of the call.
  unfoldable pub make_metadata : ℕ → Handle → GeoIpDbMetadata Double
  make_metadata now h =
      let age_seconds = difftime now (ext.build_epoch h) in
      record {
        database_type = ext.database_type h;
        build_epoch = ext.build_epoch h;
        build_time = utc_text (ext.build_epoch h);
        age_days = divide age_seconds (number 86400);
        age_ms = to_uint64 (multiply age_seconds (number 1000));
        age_ns = to_uint64 (multiply age_seconds (number 1_000_000_000));
      }

  -- `country_metadata`, `asn_metadata` and `city_metadata`.
  abbrev pub slot_metadata : ℕ → Option Handle → Option (GeoIpDbMetadata Double)
  slot_metadata now none = none
  slot_metadata now (some h) = some (make_metadata now h)
