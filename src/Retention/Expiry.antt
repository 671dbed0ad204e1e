-- ===== src/Retention/Expiry.antt =====
-- What purge_expired_snapshots of src/boveda/retention.py leaves.
use boveda_pyme.Prelude.{
  ℕ, String, ◌≡◌, refl, ap, ◌∙◌, false, not, ◌&&◌, ◌||◌, List, [], ◌∷◌, arith, select, some_of, ok,
  Bool, true, str_eq, sym, subst,
}
use boveda_pyme.Catalog.{
  Snapshot, SnapshotChunk, Db, purging, is_completed, is_running, has_id, of_snapshot, update_where,
  delete_links, delete_snapshot, update_snapshot,
}
use boveda_pyme.Catalog.Valid.{IsValid}
use boveda_pyme.Catalog.Statements.{
  delete_links-IsValid, delete_snapshot-IsValid, update_snapshot-IsValid, unlink_where-kept,
}
use boveda_pyme.Purge.{World, DeleteObjects, execute_two_phase_purge, chunks_to_purge}
use boveda_pyme.Purge.Safety.{outcome, execute_two_phase_purge_lem}
use boveda_pyme.Backup.Purging.{purge-IsValid}
use boveda_pyme.Retention.{
  set_estado, remove_snapshot, purge_snapshot, purge_snapshots, purge_expired_snapshots,
  expired_ids, batch_size, settle_purge,
}

-- What the catalogue is without the snapshots and the links of an id.
abbrev pub drop_snapshot : String → List Snapshot → List Snapshot
drop_snapshot i ss = select (λ s. not (has_id i s)) ss

abbrev pub drop_links : String → List SnapshotChunk → List SnapshotChunk
drop_links i ls = select (λ l. not (of_snapshot i l)) ls

-- A marked snapshot is not protected.
unprotected :
    (i : String) (ss : List Snapshot)
    → some_of
        (λ s. has_id i s && (is_completed s.estado || is_running s.estado))
        (update_where (has_id i) (set_estado purging) ss)
      ≡ false
unprotected i [] = refl
unprotected i (s ∷ ss) = ground (arith, unprotected i ss)

marked-dropped :
    (i : String) (ss : List Snapshot)
    → drop_snapshot i (update_where (has_id i) (set_estado purging) ss) ≡ drop_snapshot i ss
marked-dropped i [] = refl
marked-dropped i (s ∷ ss) = ground (arith, marked-dropped i ss)

dropped_twice :
    (i : String) (ls : List SnapshotChunk) → drop_links i (drop_links i ls) ≡ drop_links i ls
dropped_twice i [] = refl
dropped_twice i (l ∷ ls) = ground (arith, dropped_twice i ls)

-- The transaction on a marked snapshot is never refused.
pub remove_snapshot_lem :
    (now : ℕ) (i : String) (db : Db)
    → IsValid db
    → let marked = update_snapshot i (set_estado purging) db in
      (db' : Db) × (remove_snapshot now i marked ≡ ok db')
      × IsValid db'
      × (db'.snapshots ≡ drop_snapshot i db.snapshots)
      × (db'.snapshot_chunks ≡ drop_links i db.snapshot_chunks)
unfolding remove_snapshot delete_snapshot delete_links update_snapshot
remove_snapshot_lem now i db v =
    let marked = update_snapshot i (set_estado purging) db in
    let unlinked = delete_links now i marked in
    let v₁ = update_snapshot-IsValid i (set_estado purging) db (λ s. refl) v in
    let v₂ = delete_links-IsValid now i marked v₁ in
    let again = delete_links now i unlinked in
    let db' : Db = record again {
      snapshots = drop_snapshot i (update_where (has_id i) (set_estado purging) db.snapshots);
    } in
    let done : delete_snapshot now i unlinked ≡ ok db' = rw (unprotected i db.snapshots) refl in
    (
      db',
      done,
      delete_snapshot-IsValid now i unlinked v₂ done,
      marked-dropped i db.snapshots,
      unlink_where-kept now (of_snapshot i) unlinked.snapshot_chunks unlinked.chunk_pool
          ∙ ap (drop_links i)
              (unlink_where-kept now (of_snapshot i) db.snapshot_chunks db.chunk_pool)
          ∙ dropped_twice i db.snapshot_chunks,
    )

-- The purge changes neither the snapshots nor the links.
pub purge_keeps_links :
    (delete_objects : DeleteObjects) (n : ℕ) (w : World)
    → IsValid w.db
    → let w' = (execute_two_phase_purge delete_objects n w).1 in
      (w'.db.snapshots ≡ w.db.snapshots) × (w'.db.snapshot_chunks ≡ w.db.snapshot_chunks)
purge_keeps_links delete_objects n w v =
    rw (execute_two_phase_purge_lem delete_objects n w v) (kept (chunks_to_purge n w.db.chunk_pool))
  where
    kept :
        (cs : List (String × String))
        → let w' = (outcome delete_objects w cs).1 in
          (w'.db.snapshots ≡ w.db.snapshots) × (w'.db.snapshot_chunks ≡ w.db.snapshot_chunks)
    kept cs = ground arith

-- What one snapshot's turn leaves of the catalogue: it is valid, and without the snapshot.
record IsPurgedOf (i : String) (db db' : Db) : Type 0 where
  valid : IsValid db'
  snapshots : db'.snapshots ≡ drop_snapshot i db.snapshots
  links : db'.snapshot_chunks ≡ drop_links i db.snapshot_chunks

purge_snapshot_lem :
    (delete_objects : DeleteObjects) (now : ℕ) (exc : String) (w : World) (i : String)
    → IsValid w.db
    → IsPurgedOf i w.db (purge_snapshot delete_objects now exc w i).db
unfolding purge_snapshot
purge_snapshot_lem delete_objects now exc w i v =
    let (db, done, valid, snapshots, links) = remove_snapshot_lem now i w.db v in
    let u : World = record w { db = db } in
    let (n, returned, valid') = purge-IsValid delete_objects batch_size u valid in
    let (same_snapshots, same_links) = purge_keeps_links delete_objects batch_size u valid in
    rw done (
      subst
        (λ r.
          IsPurgedOf i w.db
            (settle_purge exc i (r, (execute_two_phase_purge delete_objects batch_size u).1)).db)
        (sym returned)
        record {
          valid = valid';
          snapshots = same_snapshots ∙ snapshots;
          links = same_links ∙ links;
        })

-- Whether an id is one of a list.
abbrev pub is_listed : List String → String → Bool
is_listed is j = some_of (λ i. str_eq j i) is

drop-listed :
    (i : String) (is : List String) (ss : List Snapshot)
    → select (λ s. not (is_listed is s.id)) (drop_snapshot i ss)
      ≡ select (λ s. not (is_listed (i ∷ is) s.id)) ss
drop-listed i is [] = refl
drop-listed i is (s ∷ ss) = ground (arith, drop-listed i is ss)

drop_links-listed :
    (i : String) (is : List String) (ls : List SnapshotChunk)
    → select (λ l. not (is_listed is l.snapshot_id)) (drop_links i ls)
      ≡ select (λ l. not (is_listed (i ∷ is) l.snapshot_id)) ls
drop_links-listed i is [] = refl
drop_links-listed i is (l ∷ ls) = ground (arith, drop_links-listed i is ls)

select-every {ℓ} : {A : Type ℓ} (xs : List A) → select (λ _. true) xs ≡ xs
select-every [] = refl
select-every (x ∷ xs) = ap (◌∷◌ x) (select-every xs)

-- What is left after the snapshots of a list of ids are purged.
pub record IsPurged (is : List String) (db db' : Db) : Type 0 where
  pub valid : IsValid db'
  pub snapshots : db'.snapshots ≡ select (λ s. not (is_listed is s.id)) db.snapshots
  pub links :
      db'.snapshot_chunks ≡ select (λ l. not (is_listed is l.snapshot_id)) db.snapshot_chunks

purge_snapshots_lem :
    (delete_objects : DeleteObjects) (now : ℕ) (exc : String) (is : List String) (w : World)
    → IsValid w.db
    → IsPurged is w.db (purge_snapshots delete_objects now exc w is).db
unfolding purge_snapshots
purge_snapshots_lem delete_objects now exc [] w v = record {
  valid = v;
  snapshots = sym (select-every w.db.snapshots);
  links = sym (select-every w.db.snapshot_chunks);
}
purge_snapshots_lem delete_objects now exc (i ∷ is) w v =
    let one = purge_snapshot_lem delete_objects now exc w i v in
    let rest =
      purge_snapshots_lem delete_objects now exc is (purge_snapshot delete_objects now exc w i)
        one.valid in
    record {
      valid = rest.valid;
      snapshots =
          rest.snapshots
          ∙ ap (select (λ s. not (is_listed is s.id))) one.snapshots
          ∙ drop-listed i is w.db.snapshots;
      links =
          rest.links
          ∙ ap (select (λ l. not (is_listed is l.snapshot_id))) one.links
          ∙ drop_links-listed i is w.db.snapshot_chunks;
    }

-- Whatever the bucket answers, the retention run deletes exactly the expired snapshots and their
-- links, in a catalogue that stays valid; none ends as PURGE_FAILED.
pub purge_expired_snapshots-IsPurged :
    (delete_objects : DeleteObjects) (now : ℕ) (exc : String) (w : World)
    → IsValid w.db
    → IsPurged
        (expired_ids w.db.snapshots)
        w.db
        (purge_expired_snapshots delete_objects now exc w).db
unfolding purge_expired_snapshots
purge_expired_snapshots-IsPurged delete_objects now exc w v =
    purge_snapshots_lem delete_objects now exc (expired_ids w.db.snapshots) w v
