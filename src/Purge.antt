-- ===== src/Purge.antt =====
-- The two-phase purge of src/boveda/retention.py (execute_two_phase_purge), with the object store
-- that it shares with the backups. A session that raises is rolled back, so the catalogue that is
-- returned is the committed one.
pub mod Batch
pub mod Phases
pub mod Safety
use boveda_pyme.Prelude.{
  ℕ, ◌+◌, String, Bool, true, false, ◌&&◌, Option, List, [], ◌∷◌, map, take, select, ◌==◌,
  if◌then◌else◌, Result, ok, err, ◌>>=◌,
}
use boveda_pyme.Catalog.{
  ChunkPool, ChunkState, Db, SqlError, purging_s3, pending_delete, is_pending_delete, is_purging_s3,
  has_hash, update_where, delete_pool,
}

-- The objects in the bucket, by storage key.
abbrev pub ObjectStore : Type 0
ObjectStore = String → Option (List ℕ)

pub record World : Type 0 where
  pub db : Db
  pub s3 : ObjectStore

-- `delete_objects_callback`: whether it returned, and the bucket that it left.
abbrev pub DeleteObjects : Type 0
DeleteObjects = List String → ObjectStore → Bool × ObjectStore

abbrev pub is_orphan : ChunkPool → Bool
is_orphan r = (r.ref_count == 0) && is_pending_delete r.state

abbrev pub set_state : ChunkState → ChunkPool → ChunkPool
set_state s r = record r { state = s }

abbrev pub to_purge : ChunkPool → Bool
to_purge r = is_purging_s3 r.state && (r.ref_count == 0)

-- Phase 1: the batch of orphans, as pairs of hash and storage key.
unfoldable pub chunks_to_purge : ℕ → List ChunkPool → List (String × String)
chunks_to_purge n pool = map (λ r. (r.hash_sha256, r.storage_key)) (take n (select is_orphan pool))

unfoldable pub mark_purging : List (String × String) → List ChunkPool → List ChunkPool
mark_purging [] pool = pool
mark_purging ((h, _) ∷ cs) pool =
    mark_purging cs
      (update_where (λ r. has_hash h r && (r.ref_count == 0)) (set_state purging_s3) pool)

unfoldable pub phase_1 : ℕ → Db → List (String × String) × Db
unfolding chunks_to_purge mark_purging
phase_1 n db =
    let cs = chunks_to_purge n db.chunk_pool in
    (cs, record db { chunk_pool = mark_purging cs db.chunk_pool })

-- Phase 2 after a successful call: the rows are deleted and counted, one statement each.
unfoldable pub confirm : List (String × String) → ℕ → Db → Result SqlError (ℕ × Db)
confirm [] purged db = ok (purged, db)
confirm ((h, _) ∷ cs) purged db =
    delete_pool (λ r. has_hash h r && to_purge r) db >>= confirm cs (purged + 1)

-- Phase 2 after a failed call: the rows go back to PENDING_DELETE.
unfoldable pub revert : List (String × String) → List ChunkPool → List ChunkPool
revert [] pool = pool
revert ((h, _) ∷ cs) pool =
    revert cs
      (update_where (λ r. has_hash h r && is_purging_s3 r.state) (set_state pending_delete) pool)

unfoldable pub phase_2 : Bool → List (String × String) → Db → Result SqlError (ℕ × Db)
unfolding confirm revert
phase_2 true cs db = confirm cs 0 db
phase_2 false cs db = ok (0, record db { chunk_pool = revert cs db.chunk_pool })

-- What the session leaves: the result of the commit, or the last committed catalogue.
abbrev pub settle : Db → ObjectStore → Result SqlError (ℕ × Db) → Result SqlError ℕ × World
settle old s3 (ok (n, db)) = (ok n, record { db = db; s3 = s3 })
settle old s3 (err e) = (err e, record { db = old; s3 = s3 })

abbrev pub is_empty {ℓ} : {A : Type ℓ} → List A → Bool
is_empty [] = true
is_empty (_ ∷ _) = false

unfoldable pub execute_two_phase_purge : DeleteObjects → ℕ → World → Result SqlError ℕ × World
unfolding phase_1 phase_2
execute_two_phase_purge delete_objects n w =
    let (cs, db) = phase_1 n w.db in
    let (s3_success, s3) = delete_objects (map (λ c. c.1) cs) w.s3 in
    if is_empty cs then (ok 0, w) else settle db s3 (phase_2 s3_success cs db)
