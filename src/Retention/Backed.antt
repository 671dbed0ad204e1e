-- ===== src/Retention/Backed.antt =====
-- purge_expired_snapshots of src/boveda/retention.py seen from the objects of the rows that still have
-- links.
use boveda_pyme.Prelude.{ℕ, ◌≤◌, String, refl, All, List, [], ◌∷◌, arith, sym, subst}
use boveda_pyme.Catalog.{on_unlink, delete_links, update_snapshot, purging}
use boveda_pyme.Catalog.Statements.{update_snapshot-IsValid, delete_links-IsValid}
use boveda_pyme.Purge.{World, DeleteObjects, ObjectStore}
use boveda_pyme.Backup.Rows.{Keyed}
use boveda_pyme.Backup.Sound.{Content}
use boveda_pyme.Backup.Purging.{DeletesOnly, IsBacked, purge-IsBacked}
use boveda_pyme.Retention.{
  batch_size, set_estado, purge_snapshot, purge_snapshots, purge_expired_snapshots, expired_ids,
}
use boveda_pyme.Retention.Expiry.{remove_snapshot_lem}
use boveda_pyme.Retention.Sound.{
  KeptByUnlink, delete_links-All, remove_snapshot-pool, purge_snapshot-purge,
}

-- A row that is referenced after it lost a link was referenced before.
unlink-Referenced :
    (C : Content) (now : ℕ) (s3 : ObjectStore)
    → KeptByUnlink now (λ r. 1 ≤ r.ref_count → C r.hash_sha256 (s3 r.storage_key))
unfolding on_unlink
unlink-Referenced C now s3 r n c a m = a (ground arith)

delete_links-IsBacked :
    (C : Content) (now : ℕ) (i : String) (w : World)
    → IsBacked C w
    → IsBacked C (record w { db = delete_links now i w.db })
unfolding on_unlink
delete_links-IsBacked C now i w s = record {
  valid = delete_links-IsValid now i w.db s.valid;
  keyed = delete_links-All _ now i w.db (λ r n c a. a) s.valid s.keyed;
  referenced = delete_links-All _ now i w.db (unlink-Referenced C now w.s3) s.valid s.referenced;
}

purge_snapshot-IsBacked :
    (C : Content) (delete_objects : DeleteObjects) (now : ℕ) (exc : String) (w : World) (i : String)
    → DeletesOnly delete_objects
    → IsBacked C w
    → IsBacked C (purge_snapshot delete_objects now exc w i)
unfolding update_snapshot
purge_snapshot-IsBacked C delete_objects now exc w i f s =
    let marked = update_snapshot i (set_estado purging) w.db in
    let (db, done, valid, _, _) = remove_snapshot_lem now i w.db s.valid in
    let u : World = record w { db = marked } in
    let su : IsBacked C u = record {
      valid = update_snapshot-IsValid i (set_estado purging) w.db (λ q. refl) s.valid;
      keyed = s.keyed;
      referenced = s.referenced;
    } in
    let unlinked =
      delete_links-IsBacked C now i (record u { db = delete_links now i marked })
        (delete_links-IsBacked C now i u su) in
    let pool = sym (remove_snapshot-pool now i marked done) in
    let v : World = record w { db = db } in
    let removed : IsBacked C v = record {
      valid = valid;
      keyed = subst Keyed pool unlinked.keyed;
      referenced =
          subst (All (λ r. 1 ≤ r.ref_count → C r.hash_sha256 (w.s3 r.storage_key))) pool
            unlinked.referenced;
    } in
    subst (IsBacked C) (sym (purge_snapshot-purge delete_objects now exc i w done valid))
      (purge-IsBacked C delete_objects batch_size v f removed)

purge_snapshots-IsBacked :
    (C : Content) (delete_objects : DeleteObjects) (now : ℕ) (exc : String) (is : List String)
    (w : World)
    → DeletesOnly delete_objects
    → IsBacked C w
    → IsBacked C (purge_snapshots delete_objects now exc w is)
unfolding purge_snapshots
purge_snapshots-IsBacked C delete_objects now exc [] w f s = s
purge_snapshots-IsBacked C delete_objects now exc (i ∷ is) w f s =
    purge_snapshots-IsBacked C delete_objects now exc is (purge_snapshot delete_objects now exc w i)
      f (purge_snapshot-IsBacked C delete_objects now exc w i f s)

-- Whatever is asked of the object of a row, provided that a deletion touches no key that it was not
-- given: whichever of its calls to the bucket raise, and whatever these have removed by then, the
-- retention run keeps the catalogue valid, and this of the object of every row that is referenced.
pub purge_expired_snapshots-IsBacked :
    (C : Content) (delete_objects : DeleteObjects) (now : ℕ) (exc : String) (w : World)
    → DeletesOnly delete_objects
    → IsBacked C w
    → IsBacked C (purge_expired_snapshots delete_objects now exc w)
unfolding purge_expired_snapshots
purge_expired_snapshots-IsBacked C delete_objects now exc w =
    purge_snapshots-IsBacked C delete_objects now exc (expired_ids w.db.snapshots) w
