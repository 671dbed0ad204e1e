-- ===== src/Retention/Sound.antt =====
-- purge_expired_snapshots of src/boveda/retention.py seen from the bucket: the objects of the rows
-- that it leaves.
use boveda_pyme.Prelude.{
  ℕ, ◌+◌, String, ◌≡◌, refl, ap, Bool, false, inl, inr, List, [], ◌∷◌, arith, All, All-map, All-zip,
  Bool-cases, ok, raise_if-eq-ok, ok-injective, sym, subst,
}
use boveda_pyme.Catalog.{
  ChunkPool, SnapshotChunk, Db, has_hash, of_snapshot, is_purging_s3, on_unlink, after_delete,
  unlink_where, delete_links, delete_snapshot, update_snapshot, is_protected, purging, abort,
}
use boveda_pyme.Catalog.Refs.{
  refs, RowIsCounted, PoolIsCounted, PoolIsCounted-cong, after_delete-PoolIsCounted,
}
use boveda_pyme.Catalog.Valid.{IsValid}
use boveda_pyme.Catalog.Statements.{delete_links-IsValid, update_snapshot-IsValid}
use boveda_pyme.Purge.{World, DeleteObjects, ObjectStore, execute_two_phase_purge}
use boveda_pyme.Backup.Rows.{Keyed}
use boveda_pyme.Backup.Sound.{Content, Stored, IsSound, All-update}
use boveda_pyme.Backup.Purging.{purge-IsValid}
use boveda_pyme.Retention.{batch_size, set_estado, remove_snapshot, settle_purge, purge_snapshot}
use boveda_pyme.Retention.Expiry.{remove_snapshot_lem, drop_links, drop_snapshot}

-- What a row that counts its links keeps when a link to it goes.
abbrev pub KeptByUnlink {κ} : ℕ → (ChunkPool → Type κ) → Type κ
KeptByUnlink now P = (r : ChunkPool) (n : ℕ) → RowIsCounted n r → P r → P (on_unlink now r)

after_delete-All {κ} :
    (P : ChunkPool → Type κ) (now : ℕ) (h : String) (n : String → ℕ) (pool : List ChunkPool)
    → KeptByUnlink now P
    → PoolIsCounted n pool
    → All P pool
    → All P (after_delete now h pool)
after_delete-All P now h n pool keep c a = All-update P (has_hash h) (on_unlink now) pool (
    All-map _ _ pool
      (λ r b. elim (Bool-cases (has_hash h r)) [
        | inl is ↦ rw is (keep r (n r.hash_sha256) b.0 b.1)
        | inr not_is ↦ rw not_is b.1
      ])
      (All-zip _ _ pool c a))

unlink_where-All {κ} :
    (P : ChunkPool → Type κ) (now : ℕ) (p : SnapshotChunk → Bool) (k : String → ℕ)
    (ls : List SnapshotChunk) (pool : List ChunkPool)
    → KeptByUnlink now P
    → PoolIsCounted (λ h. k h + refs h ls) pool
    → All P pool
    → All P (unlink_where now p ls pool).1
unfolding unlink_where
unlink_where-All P now p k [] pool keep c a = a
unlink_where-All P now p k (l ∷ ls) pool keep c a = elim (Bool-cases (p l)) [
  | inl gone ↦ rw gone (
      unlink_where-All P now p k ls (after_delete now l.chunk_hash pool) keep
        (after_delete-PoolIsCounted now l (λ h. k h + refs h ls) pool
          (PoolIsCounted-cong _ _ pool (λ h. omega arith) c))
        (after_delete-All P now l.chunk_hash _ pool keep c a))
  | inr stays ↦ rw stays (
      unlink_where-All P now p (λ h. k h + refs h (l ∷ [])) ls pool keep
        (PoolIsCounted-cong _ _ pool (λ h. omega arith) c) a)
]

pub delete_links-All {κ} :
    (P : ChunkPool → Type κ) (now : ℕ) (i : String) (db : Db)
    → KeptByUnlink now P
    → IsValid db
    → All P db.chunk_pool
    → All P (delete_links now i db).chunk_pool
unfolding delete_links
delete_links-All P now i db keep v =
    unlink_where-All P now (of_snapshot i) (λ h. 0) db.snapshot_chunks db.chunk_pool keep
      (PoolIsCounted-cong _ _ db.chunk_pool (λ h. omega arith) v.counted)

-- A row that is not being deleted after it lost a link was not being deleted before.
unlink-Stored :
    (C : Content) (now : ℕ) (s3 : ObjectStore)
    → KeptByUnlink now (λ r. is_purging_s3 r.state ≡ false → C r.hash_sha256 (s3 r.storage_key))
unfolding on_unlink
unlink-Stored C now s3 r n c a e = a (ground arith)

delete_links-IsSound :
    (C : Content) (now : ℕ) (i : String) (w : World)
    → IsSound C w
    → IsSound C (record w { db = delete_links now i w.db })
unfolding on_unlink
delete_links-IsSound C now i w s = record {
  valid = delete_links-IsValid now i w.db s.valid;
  keyed = delete_links-All _ now i w.db (λ r n c a. a) s.valid s.keyed;
  stored = delete_links-All _ now i w.db (unlink-Stored C now w.s3) s.valid s.stored;
}

-- The pool after the transaction is that of its two DELETEs of links.
pub remove_snapshot-pool :
    (now : ℕ) (i : String) (db : Db) {db' : Db}
    → remove_snapshot now i db ≡ ok db'
    → db'.chunk_pool ≡ (delete_links now i (delete_links now i db)).chunk_pool
unfolding remove_snapshot delete_snapshot
remove_snapshot-pool now i db e =
    let (_, e') = raise_if-eq-ok (is_protected i (delete_links now i db)) abort _ e in
    sym (ap (λ (d : Db). d.chunk_pool) (ok-injective e'))

-- The transaction that removes a snapshot returns and keeps a sound world.
pub remove_snapshot-IsSound :
    (C : Content) (now : ℕ) (i : String) (w : World)
    → IsSound C w
    → (db : Db) × (remove_snapshot now i (update_snapshot i (set_estado purging) w.db) ≡ ok db)
      × IsSound C (record w { db = db })
      × (db.snapshots ≡ drop_snapshot i w.db.snapshots)
      × (db.snapshot_chunks ≡ drop_links i w.db.snapshot_chunks)
unfolding update_snapshot
remove_snapshot-IsSound C now i w s =
    let marked = update_snapshot i (set_estado purging) w.db in
    let (db, done, valid, snapshots, links) = remove_snapshot_lem now i w.db s.valid in
    let u : World = record w { db = marked } in
    let su : IsSound C u = record {
      valid = update_snapshot-IsValid i (set_estado purging) w.db (λ q. refl) s.valid;
      keyed = s.keyed;
      stored = s.stored;
    } in
    let unlinked =
      delete_links-IsSound C now i (record u { db = delete_links now i marked })
        (delete_links-IsSound C now i u su) in
    let pool = sym (remove_snapshot-pool now i marked done) in
    (
      db,
      done,
      record {
        valid = valid;
        keyed = subst Keyed pool unlinked.keyed;
        stored = subst (λ rows. Stored C rows w.s3) pool unlinked.stored;
      },
      snapshots,
      links,
    )

-- A turn of the retention run ends with the purge of the catalogue without the snapshot.
pub purge_snapshot-purge :
    (delete_objects : DeleteObjects) (now : ℕ) (exc i : String) (w : World) {db : Db}
    → remove_snapshot now i (update_snapshot i (set_estado purging) w.db) ≡ ok db
    → IsValid db
    → purge_snapshot delete_objects now exc w i
      ≡ (execute_two_phase_purge delete_objects batch_size (record w { db = db })).1
unfolding purge_snapshot
purge_snapshot-purge delete_objects now exc i w {db} done valid =
    let v : World = record w { db = db } in
    let (n, returned, _) = purge-IsValid delete_objects batch_size v valid in
    rw done (
      ap (λ r. settle_purge exc i (r, (execute_two_phase_purge delete_objects batch_size v).1))
        returned)
