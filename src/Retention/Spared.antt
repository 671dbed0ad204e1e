-- ===== src/Retention/Spared.antt =====
-- What the retention run of src/boveda/retention.py leaves alone.
use boveda_pyme.Prelude.{
  first_such, some_of, ◌&&◌, ℕ, ◌≤◌, String, ◌≡◌, ◌≢◌, refl, ap, ◌∙◌, sym, subst, true, false, inl,
  inr, List, [], ◌∷◌, arith, eq_iff, select, All, All-map, All-zip, All-intro, All-select_if,
  Bool-cases,
}
use boveda_pyme.Catalog.{Snapshot, has_id, is_expired, SnapshotChunk, of_snapshot}
use boveda_pyme.Catalog.Refs.{refs, RowIsCounted}
use boveda_pyme.Catalog.Valid.{All-select, known, links-refs}
use boveda_pyme.Purge.{World, ObjectStore, DeleteObjects, chunks_to_purge, execute_two_phase_purge}
use boveda_pyme.Purge.Safety.{outcome, keys_of, execute_two_phase_purge_lem}
use boveda_pyme.Backup.{chunk_key}
use boveda_pyme.Backup.Rows.{Keyed}
use boveda_pyme.Backup.Sound.{Anything, IsSound, found_All, found-has_hash, known-found}
use boveda_pyme.Backup.Purging.{DeletesOnly, purge-IsValid, purge-spares}
use boveda_pyme.Backup.Run.Spared.{Spares, Spares-refl, Spares-trans, links_of, is_due, SameObjects}
use boveda_pyme.Retention.{
  batch_size, purge_snapshot, purge_snapshots, purge_expired_snapshots, expired_ids,
}
use boveda_pyme.Retention.Expiry.{is_listed, drop_links, drop_snapshot, purge_keeps_links}
use boveda_pyme.Retention.Sound.{remove_snapshot-IsSound, purge_snapshot-purge}

purge-Keyed :
    (delete_objects : DeleteObjects) (n : ℕ) (w : World)
    → IsSound Anything w
    → Keyed (execute_two_phase_purge delete_objects n w).1.db.chunk_pool
purge-Keyed delete_objects n w s =
    rw (execute_two_phase_purge_lem delete_objects n w s.valid)
      (left (chunks_to_purge n w.db.chunk_pool))
  where
    left : (cs : List (String × String)) → Keyed (outcome delete_objects w cs).1.db.chunk_pool
    left [] = s.keyed
    left (c ∷ cs) = elim (Bool-cases (delete_objects (keys_of (c ∷ cs)) w.s3).0) [
      | inl done ↦ rw done (All-select _ _ w.db.chunk_pool s.keyed)
      | inr failed ↦ rw failed s.keyed
    ]

-- The objects of the rows with a reference, seen from a link.
spared_of_link :
    (w : World) (s3' : ObjectStore) (l : SnapshotChunk)
    → IsSound Anything w
    → All (λ r. 1 ≤ r.ref_count → s3' r.storage_key ≡ w.s3 r.storage_key) w.db.chunk_pool
    → known l.chunk_hash w.db.chunk_pool ≡ true
    → 1 ≤ refs l.chunk_hash w.db.snapshot_chunks
    → s3' (chunk_key l.chunk_hash) ≡ w.s3 (chunk_key l.chunk_hash)
spared_of_link w s3' l s kept k m =
    let h = l.chunk_hash in
    let pool = w.db.chunk_pool in
    let (r, e) = known-found h pool k in
    let same = (eq_iff r.hash_sha256 h).0 (found-has_hash h r pool e) in
    let counted =
      found_All (λ q. RowIsCounted (refs q.hash_sha256 w.db.snapshot_chunks) q) h r pool e
        s.valid.counted in
    let keyed = found_All (λ q. q.storage_key ≡ chunk_key q.hash_sha256) h r pool e s.keyed in
    let there =
      found_All (λ q. 1 ≤ q.ref_count → s3' q.storage_key ≡ w.s3 q.storage_key) h r pool e kept in
    let linked = ap (λ x. refs x w.db.snapshot_chunks) same in
    subst (λ x. s3' x ≡ w.s3 x) (keyed ∙ ap chunk_key same)
      (there (omega (arith, counted.counted, linked, m)))

purge-SameObjects :
    (delete_objects : DeleteObjects) (n : ℕ) (w : World)
    → DeletesOnly delete_objects
    → IsSound Anything w
    → SameObjects w.s3 (execute_two_phase_purge delete_objects n w).1.s3 w.db.snapshot_chunks
purge-SameObjects delete_objects n w f s =
    let left = (execute_two_phase_purge delete_objects n w).1 in
    All-map _ _ w.db.snapshot_chunks
      (λ l a.
        spared_of_link w left.s3 l s (purge-spares delete_objects n w f s.valid s.keyed) a.0 a.1)
      (All-zip _ _ w.db.snapshot_chunks s.valid.linked (links-refs w.db.snapshot_chunks))

purge-Spares :
    (delete_objects : DeleteObjects) (j : String) (n : ℕ) (w : World)
    → DeletesOnly delete_objects
    → IsSound Anything w
    → Spares j w (execute_two_phase_purge delete_objects n w).1
purge-Spares delete_objects j n w f s =
    let left = (execute_two_phase_purge delete_objects n w).1 in
    let (snapshots, links) = purge_keeps_links delete_objects n w s.valid in
    let (_, _, valid) = purge-IsValid delete_objects n w s.valid in
    record {
      sound = record {
        valid = valid;
        keyed = purge-Keyed delete_objects n w s;
        stored = All-intro _ left.db.chunk_pool (λ r a. tt);
      };
      row = ap (first_such (has_id j)) snapshots;
      not_due = λ d. ap (some_of (λ s. has_id j s && is_expired s.estado)) snapshots ∙ d;
      links = ap (select (of_snapshot j)) links;
      objects = All-select_if _ (of_snapshot j) w.db.snapshot_chunks (
          All-map _ _ w.db.snapshot_chunks (λ l a m. a) (purge-SameObjects delete_objects n w f s));
    }

dropped-links_of :
    (i j : String) (ls : List SnapshotChunk)
    → i ≢ j
    → select (of_snapshot j) (drop_links i ls) ≡ select (of_snapshot j) ls
dropped-links_of i j [] ne = refl
dropped-links_of i j (l ∷ ls) ne =
    ground (arith, eq_iff l.snapshot_id i, eq_iff l.snapshot_id j, dropped-links_of i j ls ne)

dropped-row :
    (i j : String) (ss : List Snapshot)
    → i ≢ j
    → first_such (has_id j) (drop_snapshot i ss) ≡ first_such (has_id j) ss
dropped-row i j [] ne = refl
dropped-row i j (s ∷ ss) ne = ground (arith, eq_iff s.id i, eq_iff s.id j, dropped-row i j ss ne)

dropped-not_due :
    (i j : String) (ss : List Snapshot)
    → some_of (λ s. has_id j s && is_expired s.estado) ss ≡ false
    → some_of (λ s. has_id j s && is_expired s.estado) (drop_snapshot i ss) ≡ false
dropped-not_due i j [] e = refl
dropped-not_due i j (s ∷ ss) e = ground (arith, dropped-not_due i j ss)

purge_snapshot-Spares :
    (delete_objects : DeleteObjects) (j : String) (now : ℕ) (exc i : String) (w : World)
    → DeletesOnly delete_objects
    → i ≢ j
    → IsSound Anything w
    → Spares j w (purge_snapshot delete_objects now exc w i)
purge_snapshot-Spares delete_objects j now exc i w f ne s =
    let (db, done, sound, snapshots, links) = remove_snapshot-IsSound Anything now i w s in
    let v : World = record w { db = db } in
    let removed : Spares j w v = record {
      sound = sound;
      row = ap (first_such (has_id j)) snapshots ∙ dropped-row i j w.db.snapshots ne;
      not_due = λ d.
          ap (some_of (λ q. has_id j q && is_expired q.estado)) snapshots
          ∙ dropped-not_due i j w.db.snapshots d;
      links = ap (select (of_snapshot j)) links ∙ dropped-links_of i j w.db.snapshot_chunks ne;
      objects = All-intro _ (links_of j w.db) (λ l. refl);
    } in
    subst (Spares j w) (sym (purge_snapshot-purge delete_objects now exc i w done sound.valid)) (
      Spares-trans j w v (execute_two_phase_purge delete_objects batch_size v).1 removed
        (purge-Spares delete_objects j batch_size v f sound))

purge_snapshots-Spares :
    (delete_objects : DeleteObjects) (j : String) (now : ℕ) (exc : String) (is : List String)
    (w : World)
    → DeletesOnly delete_objects
    → is_listed is j ≡ false
    → IsSound Anything w
    → Spares j w (purge_snapshots delete_objects now exc w is)
unfolding purge_snapshots
purge_snapshots-Spares delete_objects j now exc [] w f n s = Spares-refl j w s
purge_snapshots-Spares delete_objects j now exc (i ∷ is) w f n s =
    let v = purge_snapshot delete_objects now exc w i in
    let one =
      purge_snapshot-Spares delete_objects j now exc i w f (λ e. ground (arith, eq_iff j i)) s in
    Spares-trans j w v (purge_snapshots delete_objects now exc v is) one
      (purge_snapshots-Spares delete_objects j now exc is v f (ground arith) one.sound)

not_due-listed :
    (j : String) (ss : List Snapshot)
    → some_of (λ s. has_id j s && is_expired s.estado) ss ≡ false
    → is_listed (expired_ids ss) j ≡ false
not_due-listed j [] e = refl
not_due-listed j (s ∷ ss) e = ground (arith, eq_iff s.id j, eq_iff j s.id, not_due-listed j ss)

-- With deletions that touch no other keys, whether they return or raise in the middle: the retention
-- run keeps the links of a snapshot that had not expired, and their objects.
pub purge_expired_snapshots-Spares :
    (delete_objects : DeleteObjects) (j : String) (now : ℕ) (exc : String) (w : World)
    → DeletesOnly delete_objects
    → is_due j w.db ≡ false
    → IsSound Anything w
    → Spares j w (purge_expired_snapshots delete_objects now exc w)
unfolding purge_expired_snapshots
purge_expired_snapshots-Spares delete_objects j now exc w f d =
    purge_snapshots-Spares delete_objects j now exc (expired_ids w.db.snapshots) w f
      (not_due-listed j w.db.snapshots d)
