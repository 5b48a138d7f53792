-- ===== src/Config/Detection.antt =====
-- Which databases the search of the standard directories settles on.
use nshgeoip.Prelude.{
  Bool-cases, All, Bytes, codes, is_empty, ◌≡◌, refl, ap, ◌≢◌, inl, inr, Bool, true, false, List,
  [], ◌∷◌, ◌++◌,
}
use nshgeoip.Config.{Config}
use nshgeoip.Config.Defaults.{
  find_candidate, take_candidate, resolve_db_slot, apply_default_db_paths,
}

is_empty-true : (s : Bytes) → is_empty s ≡ true → s ≡ []
is_empty-true [] e = refl
is_empty-true (c ∷ s) e = cc

is_empty-false : (s : Bytes) → is_empty s ≡ false → s ≢ []
is_empty-false s e n = cc (e, ap is_empty n)

module _ (regular_file_exists : Bytes → Bool) where
  abbrev IsMissing : Bytes → Bytes → Type 0
  IsMissing filename dir = regular_file_exists (dir ++ b'/' ∷ filename) ≡ false

  -- The file of the first directory that has it, if there is one.
  pub data Found (filename : Bytes) (dirs : List Bytes) : Bytes → Type 0 where
    finds :
        (before : List Bytes) (dir : Bytes) (after : List Bytes)
        → dirs ≡ before ++ dir ∷ after
        → All (IsMissing filename) before
        → regular_file_exists (dir ++ b'/' ∷ filename) ≡ true
        → Found filename dirs (dir ++ b'/' ∷ filename)
    leaves : All (IsMissing filename) dirs → Found filename dirs []

  -- A field that is set is kept.
  abbrev pub Settles : Bytes → List Bytes → Bytes → Bytes → Type 0
  Settles filename dirs field result =
      (field ≢ [] → result ≡ field) × (field ≡ [] → Found filename dirs result)

  Found-cons :
      (filename dir : Bytes) (dirs : List Bytes) (result : Bytes)
      → IsMissing filename dir
      → Found filename dirs result
      → Found filename (dir ∷ dirs) result
  Found-cons filename dir dirs result h (finds before d after e all y) =
      finds (dir ∷ before) d after (ap (◌∷◌ dir) e) (h, all) y
  Found-cons filename dir dirs result h (leaves all) = leaves (h, all)

  pub record IsDetected (cfg : Config) (dirs : List Bytes) (r : Config) : Type 0 where
    pub city : Settles (codes "GeoLite2-City.mmdb") dirs cfg.city_db r.city_db
    pub asn : Settles (codes "GeoLite2-ASN.mmdb") dirs cfg.asn_db r.asn_db
    pub country_skipped : r.city_db ≢ [] → r.country_db ≡ cfg.country_db
    pub country_searched :
        r.city_db ≡ [] → Settles (codes "GeoLite2-Country.mmdb") dirs cfg.country_db r.country_db
    -- Nothing else changes.
    pub rest : r ≡ record cfg { city_db = r.city_db; asn_db = r.asn_db; country_db = r.country_db }

  take_candidate-Found :
      (key filename : Bytes) (dirs notes : List Bytes)
      → Found filename dirs
          (take_candidate regular_file_exists key notes
            (find_candidate regular_file_exists filename dirs)).0
  unfolding find_candidate
  take_candidate-Found key filename [] notes = leaves tt
  take_candidate-Found key filename (dir ∷ dirs) notes =
      elim (Bool-cases (regular_file_exists (dir ++ b'/' ∷ filename))) [
        | inl e ↦ rw e (finds [] dir dirs refl tt e)
        | inr e ↦
            rw e (Found-cons filename dir dirs _ e (take_candidate-Found key filename dirs notes))
      ]

  resolve_db_slot-Settles :
      (field key filename : Bytes) (dirs notes : List Bytes)
      → Settles filename dirs field
          (resolve_db_slot regular_file_exists field key filename dirs notes).0
  unfolding resolve_db_slot
  resolve_db_slot-Settles (c ∷ field) key filename dirs notes = ((λ n. refl), (λ e. cc))
  resolve_db_slot-Settles [] key filename dirs notes =
      ((λ n. absurd (n refl)), (λ e. take_candidate-Found key filename dirs notes))

  -- Each field settles on its file: one that is set is kept, one that is not gets the path of the
  -- first directory that holds a regular file of the name, and stays empty if none does. For
  -- country_db this is so only if no city database is set or found; else it is left as it is. No
  -- other field changes.
  pub apply_default_db_paths-IsDetected :
      (cfg : Config) (dirs notes : List Bytes)
      → IsDetected cfg dirs (apply_default_db_paths regular_file_exists cfg dirs notes).0
  unfolding apply_default_db_paths
  apply_default_db_paths-IsDetected cfg dirs notes = elim (Bool-cases (is_empty city.0)) [
    | inl e ↦ simp e (record {
      city = resolve_db_slot-Settles cfg.city_db _ _ dirs notes;
      asn = resolve_db_slot-Settles cfg.asn_db _ _ dirs city.1;
      country_skipped = λ n. absurd (n (is_empty-true _ e));
      country_searched = λ n. resolve_db_slot-Settles cfg.country_db _ _ dirs _;
      rest = refl;
    })
    | inr e ↦ simp e (record {
      city = resolve_db_slot-Settles cfg.city_db _ _ dirs notes;
      asn = resolve_db_slot-Settles cfg.asn_db _ _ dirs city.1;
      country_skipped = λ n. refl;
      country_searched = λ n. absurd (is_empty-false _ e n);
      rest = refl;
    })
  ]
    where
      city : Bytes × List Bytes
      city =
          resolve_db_slot regular_file_exists cfg.city_db (codes "city_db")
            (codes "GeoLite2-City.mmdb") dirs notes
