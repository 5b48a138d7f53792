-- ===== src/Server/Lifecycle/Reload.antt =====
-- What a SIGHUP does to the databases.
use nshgeoip.Prelude.{
  if◌then◌else◌, Bytes, ◌≡◌, refl, sym, ap, ◌∙◌, subst, Bool, true, false, not, ◌&&◌, Option, some,
  [], ◌∷◌,
}
use nshgeoip.External.{OpenResult, opened, failed}
use nshgeoip.Geoip.{
  has_value, install, open_slot, GeoIpDatabases, Slot, country_slot, asn_slot, city_slot,
}
use nshgeoip.Config.{Config}
use nshgeoip.Server.Os.{Trace, M, bind_result, ◌>>=◌, ret, Os, ServerState, Result, returns, throws}
use nshgeoip.Server.Lifecycle.{open_database, reload_slot, reload_databases}

abbrev pub slot_of : {Handle : Type 0} → Slot → GeoIpDatabases Handle → Option Handle
slot_of country_slot db = db.country
slot_of asn_slot db = db.asn
slot_of city_slot db = db.city

abbrev same_slot : Slot → Slot → Bool
same_slot country_slot country_slot = true
same_slot asn_slot asn_slot = true
same_slot city_slot city_slot = true
same_slot _ _ = false

abbrev pub path_of : Slot → Config → Bytes
path_of country_slot cfg = cfg.country_db
path_of asn_slot cfg = cfg.asn_db
path_of city_slot cfg = cfg.city_db

bind_result-returns :
    {S A B : Type 0} (r : Result A × S) (f : A → M S B) (a : A)
    → r.0 ≡ returns a
    → bind_result r f ≡ f a r.1
bind_result-returns (returns x, s) f a e = ap (λ b. f b s) (cc)
bind_result-returns (throws err, s) f a e = cc

module _ {Handle : Type 0} (files : Bytes → OpenResult Handle) where
  -- The handle of a slot behind a reload: a new one if the slot has a path whose file opens, otherwise
  -- the old one.
  abbrev pub replacement : Option Handle → OpenResult Handle → Option Handle
  replacement old (opened h) = some h
  replacement old (failed reason) = old

  abbrev pub reopened : Bytes → Option Handle → Option Handle
  reopened [] old = old
  reopened (c ∷ path) old = replacement old (files (c ∷ path))

  abbrev pub is_opened : OpenResult Handle → Bool
  is_opened (opened h) = true
  is_opened (failed reason) = false

  abbrev pub opens : Bytes → Bool
  opens [] = true
  opens (c ∷ path) = is_opened (files (c ∷ path))

  -- Whether the reload went well, each slot, and that a database that was open stays so; nothing else
  -- changes but the record of the calls.
  pub record IsReloaded (cfg : Config) (s : ServerState Handle)
      (r : Result Bool × ServerState Handle) : Type 0 where
    pub ok : r.0 ≡ returns (opens cfg.country_db && (opens cfg.asn_db && opens cfg.city_db))
    pub slots :
        (slot : Slot) → slot_of slot r.1.db ≡ reopened (path_of slot cfg) (slot_of slot s.db)
    pub stays_open :
        (slot : Slot)
        → has_value (slot_of slot s.db) ≡ true
        → has_value (slot_of slot r.1.db) ≡ true
    pub rest : r.1 ≡ record s { db = r.1.db; trace = r.1.trace }

  -- One slot behind another's turn.
  abbrev turn : Slot → Slot → Bytes → GeoIpDatabases Handle → Option Handle
  turn slot mine path db =
      if same_slot slot mine then reopened path (slot_of slot db) else slot_of slot db

  install-slot :
      (slot mine : Slot) (h : Handle) (db : GeoIpDatabases Handle)
      → slot_of slot (install db mine h) ≡ (if same_slot slot mine then some h else slot_of slot db)
  unfolding install
  install-slot country_slot country_slot h db = refl
  install-slot country_slot asn_slot h db = refl
  install-slot country_slot city_slot h db = refl
  install-slot asn_slot country_slot h db = refl
  install-slot asn_slot asn_slot h db = refl
  install-slot asn_slot city_slot h db = refl
  install-slot city_slot country_slot h db = refl
  install-slot city_slot asn_slot h db = refl
  install-slot city_slot city_slot h db = refl

  if-same : (b : Bool) (o : Option Handle) → o ≡ (if b then o else o)
  if-same true o = refl
  if-same false o = refl

  reopened-open :
      (path : Bytes) (old : Option Handle)
      → has_value old ≡ true
      → has_value (reopened path old) ≡ true
  reopened-open [] old e = e
  reopened-open (c ∷ path) old e = go (files (c ∷ path))
    where
      go : (r : OpenResult Handle) → has_value (replacement old r) ≡ true
      go (opened h) = refl
      go (failed reason) = e

  module _ (os : Os Handle)
      (answers : (t : Trace) (path : Bytes) → os.open_db t path ≡ files path) where
    -- What one turn of the reload gives.
    record IsTurn (mine : Slot) (path : Bytes) (s : ServerState Handle)
        (r : Result Bool × ServerState Handle) : Type 0 where
      pub turned : (slot : Slot) → slot_of slot r.1.db ≡ turn slot mine path s.db
      pub answered : r.0 ≡ returns (opens path)
      pub others : r.1 ≡ record s { db = r.1.db; trace = r.1.trace }

    reload_slot-IsTurn :
        (mine : Slot) (path : Bytes) (s : ServerState Handle)
        → IsTurn mine path s (reload_slot os mine path s)
    unfolding reload_slot ◌>>=◌ ret open_database open_slot
    reload_slot-IsTurn mine [] s = record {
      turned = λ slot. if-same (same_slot slot mine) _;
      answered = refl;
      others = refl;
    }
    reload_slot-IsTurn mine (c ∷ path) s = rw (answers s.trace (c ∷ path)) (record {
      turned = λ slot. (go slot (files (c ∷ path))).0;
      answered = ap returns (go mine (files (c ∷ path))).1;
      others = refl;
    })
      where
        go :
            (slot : Slot) (r : OpenResult Handle)
            → (slot_of slot (open_slot s.db mine (c ∷ path) r).0 ≡ (
                if same_slot slot mine
                then replacement (slot_of slot s.db) r
                else slot_of slot s.db))
              × (not (has_value (open_slot s.db mine (c ∷ path) r).1) ≡ is_opened r)
        go slot (opened h) = (install-slot slot mine h s.db, refl)
        go slot (failed reason) = (if-same (same_slot slot mine) _, refl)

    turns :
        (s s1 s2 s3 : ServerState Handle) (cfg : Config)
        → ((slot : Slot) → slot_of slot s1.db ≡ turn slot country_slot cfg.country_db s.db)
        → ((slot : Slot) → slot_of slot s2.db ≡ turn slot asn_slot cfg.asn_db s1.db)
        → ((slot : Slot) → slot_of slot s3.db ≡ turn slot city_slot cfg.city_db s2.db)
        → (slot : Slot) → slot_of slot s3.db ≡ reopened (path_of slot cfg) (slot_of slot s.db)
    turns s s1 s2 s3 cfg a b c country_slot = c country_slot ∙ b country_slot ∙ a country_slot
    turns s s1 s2 s3 cfg a b c asn_slot =
        c asn_slot ∙ b asn_slot ∙ ap (reopened cfg.asn_db) (a asn_slot)
    turns s s1 s2 s3 cfg a b c city_slot =
        c city_slot ∙ ap (reopened cfg.city_db) (b city_slot ∙ a city_slot)

    -- After SIGHUP, if the files do not change meanwhile: a database whose file opens is replaced, one
    -- whose file does not keeps its old handle, so one that was open stays open; the last line of
    -- the log says that all went well exactly if every configured file opened; and no other member
    -- changes.
    pub reload_databases-IsReloaded :
        (cfg : Config) (s : ServerState Handle) → IsReloaded cfg s (reload_databases os cfg s)
    unfolding reload_databases ◌>>=◌ ret
    reload_databases-IsReloaded cfg s =
        let a = reload_slot-IsTurn country_slot cfg.country_db s in
        let s1 : ServerState Handle = (reload_slot os country_slot cfg.country_db s).1 in
        let b = reload_slot-IsTurn asn_slot cfg.asn_db s1 in
        let s2 : ServerState Handle = (reload_slot os asn_slot cfg.asn_db s1).1 in
        let c = reload_slot-IsTurn city_slot cfg.city_db s2 in
        let s3 : ServerState Handle = (reload_slot os city_slot cfg.city_db s2).1 in
        let slots : (slot : Slot)
            → slot_of slot s3.db ≡ reopened (path_of slot cfg) (slot_of slot s.db) =
          turns s s1 s2 s3 cfg a.turned b.turned c.turned in
        subst (IsReloaded cfg s)
          (sym (
            bind_result-returns _ _ _ a.answered
            ∙ bind_result-returns _ _ _ b.answered
            ∙ bind_result-returns _ _ _ c.answered))
          (record {
            ok = refl;
            slots = slots;
            stays_open = λ slot e.
                subst (λ o. has_value o ≡ true) (sym (slots slot))
                  (reopened-open (path_of slot cfg) (slot_of slot s.db) e);
            rest =
                c.others
                ∙ ap {A = ServerState Handle} (λ t. record t { db = s3.db; trace = s3.trace })
                    (b.others
                      ∙ ap {A = ServerState Handle} (λ t. record t { db = s2.db; trace = s2.trace })
                          a.others);
          })
