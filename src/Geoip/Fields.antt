-- ===== src/Geoip/Fields.antt =====
-- Where each field of a lookup comes from.
use nshgeoip.Prelude.{
  if◌then◌else◌, codes, ◌≡◌, refl, Bool, true, false, ◌||◌, Option, none, some, [], ◌∷◌, arith,
}
use nshgeoip.External.{LookupResult, lookup_error, not_found, found_entry, External}
use nshgeoip.Ip.{ParsedAddr}
use nshgeoip.Geoip.{
  has_value, get_string, get_uint32, get_uint16, get_double, fill_country, fill_asn, fill_city,
  empty_result, consult, ask, lookup, GeoIpResult, GeoIpDatabases,
}

module _ (ext : External) where
  open ext use {Handle, Entry, Double}

  abbrev is_error : Option (LookupResult Entry) → Bool
  is_error (some lookup_error) = true
  is_error _ = false

  abbrev entry_of : Option (LookupResult Entry) → Option Entry
  entry_of (some (found_entry e)) = some e
  entry_of _ = none

  abbrev from {ℓ} : {A : Type ℓ} → Option Entry → (Entry → Option A) → Option A
  from none f = none
  from (some e) f = f e

  -- The result, field by field, from the answers of the three databases. Country and continent
  -- are read from `country_db` if it is open, also where it has no entry for the address, and from
  -- `city_db` only otherwise.
  expected_of :
      Option (LookupResult Entry)
      → Option (LookupResult Entry)
      → Option (LookupResult Entry)
      → GeoIpResult Double
  expected_of country asn city =
      let source = if has_value country then entry_of country else entry_of city in
      let asn_entry = entry_of asn in
      let city_entry = entry_of city in
      record {
        found = has_value (entry_of country) || has_value asn_entry || has_value city_entry;
        country_code =
            from source (λ e. get_string ext e (codes "country" ∷ codes "iso_code" ∷ []));
        country_name =
            from source (λ e. get_string ext e (codes "country" ∷ codes "names" ∷ codes "en" ∷ []));
        continent_code =
            from source (λ e. get_string ext e (codes "continent" ∷ codes "code" ∷ []));
        asn = from asn_entry (λ e. get_uint32 ext e (codes "autonomous_system_number" ∷ []));
        as_org =
            from asn_entry (λ e. get_string ext e (codes "autonomous_system_organization" ∷ []));
        city_name =
            from city_entry
              (λ e. get_string ext e (codes "city" ∷ codes "names" ∷ codes "en" ∷ []));
        postal_code = from city_entry (λ e. get_string ext e (codes "postal" ∷ codes "code" ∷ []));
        latitude =
            from city_entry (λ e. get_double ext e (codes "location" ∷ codes "latitude" ∷ []));
        longitude =
            from city_entry (λ e. get_double ext e (codes "location" ∷ codes "longitude" ∷ []));
        accuracy_radius =
            from city_entry
              (λ e. get_uint16 ext e (codes "location" ∷ codes "accuracy_radius" ∷ []));
      }

  pub expected : GeoIpDatabases Handle → ParsedAddr → GeoIpResult Double
  expected db addr =
      expected_of (ask ext db.country addr) (ask ext db.asn addr) (ask ext db.city addr)

  any_error_of :
      Option (LookupResult Entry) → Option (LookupResult Entry) → Option (LookupResult Entry) → Bool
  any_error_of country asn city = is_error country || is_error asn || is_error city

  pub any_error : GeoIpDatabases Handle → ParsedAddr → Bool
  any_error db addr =
      any_error_of (ask ext db.country addr) (ask ext db.asn addr) (ask ext db.city addr)

  answers :
      Option (LookupResult Entry)
      → Option (LookupResult Entry)
      → Option (LookupResult Entry)
      → GeoIpResult Double × Bool
  answers country asn city = consult ext city (fill_city ext (has_value country)) (
      consult ext asn (fill_asn ext)
        (consult ext country (fill_country ext) (empty_result ext, false)))

  answers-expected_of :
      (country asn city : Option (LookupResult Entry))
      → ((answers country asn city).1 ≡ any_error_of country asn city)
        × (any_error_of country asn city ≡ false
            → (answers country asn city).0 ≡ expected_of country asn city)
  unfolding answers consult any_error_of expected_of fill_country fill_asn fill_city
  answers-expected_of none none none = (refl, λ e. refl)
  answers-expected_of (some lookup_error) none none = ground arith
  answers-expected_of (some not_found) none none = ground arith
  answers-expected_of (some (found_entry e)) none none = ground arith
  answers-expected_of c (some lookup_error) none = ground arith
  answers-expected_of c (some not_found) none = ground arith
  answers-expected_of c (some (found_entry e)) none = ground arith
  answers-expected_of c a (some lookup_error) = ground arith
  answers-expected_of c a (some not_found) = ground arith
  answers-expected_of c a (some (found_entry e)) = ground arith

  has_value-ask : (o : Option Handle) (addr : ParsedAddr) → has_value o ≡ has_value (ask ext o addr)
  has_value-ask none addr = refl
  has_value-ask (some h) addr = refl

  -- `db_error` is set exactly if an open database reports an error for the address; if none does,
  -- every field of the result is the one that the description `expected` names.
  pub lookup-expected :
      (db : GeoIpDatabases Handle) (addr : ParsedAddr)
      → ((lookup ext db addr).1 ≡ any_error db addr)
        × (any_error db addr ≡ false → (lookup ext db addr).0 ≡ expected db addr)
  unfolding lookup any_error expected answers
  lookup-expected db addr =
      rw (has_value-ask db.country addr)
        (answers-expected_of (ask ext db.country addr) (ask ext db.asn addr) (ask ext db.city addr))
