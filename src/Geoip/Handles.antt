-- ===== src/Geoip/Handles.antt =====
-- What becomes of the handles over the life of the databases.
use mathlib.Core.List.{Perm, perm_middle}
use mathlib.Core.List.Perm
use nshgeoip.Prelude.{Bytes, subst, Option, none, some, List, [], ◌∷◌, ◌++◌, append-nil}
use nshgeoip.External.{OpenResult, opened, failed}
use nshgeoip.Geoip.{
  close_slot, no_databases, install, open_slot, destroy, GeoIpDatabases, Slot, country_slot,
  asn_slot, city_slot,
}

module _ {Handle : Type 0} where
  -- A history of `open_*` and `reload_*` calls, each with what `MMDB_open` answers.
  pub run_opens :
      GeoIpDatabases Handle → List (Slot × Bytes × OpenResult Handle) → GeoIpDatabases Handle
  run_opens db [] = db
  run_opens db ((slot, path, answer) ∷ calls) = run_opens (open_slot db slot path answer).0 calls

  -- The handles that the calls got, newest last.
  abbrev pub handles_of : List (Slot × Bytes × OpenResult Handle) → List Handle
  handles_of [] = []
  handles_of ((slot, path, opened h) ∷ calls) = h ∷ handles_of calls
  handles_of ((slot, path, failed reason) ∷ calls) = handles_of calls

  close_slot-perm :
      (o : Option Handle) {xs ys : List Handle}
      → Perm xs ys
      → Perm (close_slot o xs) (close_slot o ys)
  close_slot-perm none p = p
  close_slot-perm (some h) p = Perm.cons h p

  close_slot-cons :
      (o : Option Handle) (h : Handle) (xs : List Handle)
      → Perm (close_slot o (h ∷ xs)) (h ∷ close_slot o xs)
  close_slot-cons none h xs = Perm.refl (h ∷ xs)
  close_slot-cons (some x) h xs = Perm.swap h x xs

  close_slot_swap :
      (o o' : Option Handle) (xs : List Handle)
      → Perm (close_slot o (close_slot o' xs)) (close_slot o' (close_slot o xs))
  close_slot_swap none o' xs = Perm.refl (close_slot o' xs)
  close_slot_swap (some x) o' xs = Perm.symm (close_slot-cons o' x xs)

  destroy-install :
      (db : GeoIpDatabases Handle) (slot : Slot) (h : Handle)
      → Perm (destroy (install db slot h)) (h ∷ destroy db)
  unfolding destroy install
  destroy-install db country_slot h =
      Perm.trans (close_slot-perm db.city (close_slot-cons db.asn h _))
        (close_slot-cons db.city h _)
  destroy-install db asn_slot h =
      Perm.trans
        (close_slot-perm db.city (Perm.cons h (close_slot_swap db.country db.asn db.closed)))
        (close_slot-cons db.city h _)
  destroy-install db city_slot h = Perm.cons h (
      Perm.trans (close_slot-perm db.asn (close_slot_swap db.country db.city db.closed))
        (close_slot_swap db.asn db.city _))

  destroy-run_opens :
      (calls : List (Slot × Bytes × OpenResult Handle)) (db : GeoIpDatabases Handle)
      → Perm (destroy (run_opens db calls)) (handles_of calls ++ destroy db)
  unfolding run_opens open_slot
  destroy-run_opens [] db = Perm.refl (destroy db)
  destroy-run_opens ((slot, path, opened h) ∷ calls) db =
      Perm.trans (destroy-run_opens calls (install db slot h)) (
        Perm.trans (Perm.append (Perm.refl (handles_of calls)) (destroy-install db slot h))
          (perm_middle (handles_of calls) (destroy db)))
  destroy-run_opens ((slot, path, failed reason) ∷ calls) db = destroy-run_opens calls db

  -- Over any history of opens and reloads, failed ones among them, and the destructor, every
  -- handle that was opened is closed exactly once, and nothing else is.
  pub destroy_closes_all :
      (calls : List (Slot × Bytes × OpenResult Handle))
      → Perm (destroy (run_opens no_databases calls)) (handles_of calls)
  unfolding destroy
  destroy_closes_all calls =
      subst (Perm (destroy (run_opens no_databases calls))) (append-nil (handles_of calls))
        (destroy-run_opens calls no_databases)
