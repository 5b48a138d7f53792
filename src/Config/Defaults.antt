-- ===== src/Config/Defaults.antt =====
-- src/config.cpp: `apply_default_db_paths`. `regular_file_exists`, a stat() call, is a parameter.
use nshgeoip.Prelude.{
  if◌then◌else◌, Bytes, codes, is_empty, Bool, not, Option, none, some, List, [], ◌∷◌, ◌++◌,
}
use nshgeoip.Config.{Config}

module _ (regular_file_exists : Bytes → Bool) where
  -- The loop of `resolve_db_slot`: the candidate that is taken.
  unfoldable pub find_candidate : Bytes → List Bytes → Option Bytes
  find_candidate filename [] = none
  find_candidate filename (dir ∷ dirs) =
      let candidate = dir ++ b'/' ∷ filename in
      if regular_file_exists candidate then some candidate else find_candidate filename dirs

  -- The field, which was empty, and the notes afterwards.
  abbrev pub take_candidate : Bytes → List Bytes → Option Bytes → Bytes × List Bytes
  take_candidate key notes none = ([], notes)
  take_candidate key notes (some candidate) = (
    candidate,
    notes ++ (key ++ codes " not set, using " ++ candidate ++ codes " (auto-detected)") ∷ [],
  )

  unfoldable pub resolve_db_slot :
      Bytes → Bytes → Bytes → List Bytes → List Bytes → Bytes × List Bytes
  resolve_db_slot field key filename geoip_dirs notes =
      if not (is_empty field)
      then (field, notes)
      else take_candidate key notes (find_candidate filename geoip_dirs)

  abbrev pub resolve_country : Config → List Bytes → List Bytes → Config × List Bytes
  resolve_country cfg geoip_dirs notes =
      let (country, more) =
        resolve_db_slot cfg.country_db (codes "country_db") (codes "GeoLite2-Country.mmdb")
          geoip_dirs notes in
      (record cfg { country_db = country }, more)

  abbrev pub skip_country : Config → List Bytes → Config × List Bytes
  skip_country cfg notes = (
    cfg,
    if is_empty cfg.country_db
        then notes
          ++ codes
              "country_db not set, skipping auto-detect: city_db already supplies country/continent data"
            ∷ []
        else notes,
  )

  unfoldable pub apply_default_db_paths : Config → List Bytes → List Bytes → Config × List Bytes
  apply_default_db_paths cfg geoip_dirs notes =
      let (city, notes1) =
        resolve_db_slot cfg.city_db (codes "city_db") (codes "GeoLite2-City.mmdb") geoip_dirs
          notes in
      let (asn, notes2) =
        resolve_db_slot cfg.asn_db (codes "asn_db") (codes "GeoLite2-ASN.mmdb") geoip_dirs notes1 in
      let resolved = record cfg { city_db = city; asn_db = asn } in
      if is_empty city
      then resolve_country resolved geoip_dirs notes2
      else skip_country resolved notes2
