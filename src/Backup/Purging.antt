-- ===== src/Backup/Purging.antt =====
-- The purge of src/boveda/retention.py seen from the bucket that it shares with the uploads.
use boveda_pyme.Prelude.{
  ◌∙◌, length, ℕ, String, ◌≡◌, refl, ap, false, List, [], ◌∷◌, arith, str_eq, eq_iff, take, select,
  some_of, All, All-map_of, All-take, ◌≤◌, ok, Bool-cases, inl, ◌⊎◌, true, inr, All-map, All-zip,
  subst, sym,
}
use boveda_pyme.Catalog.{ChunkPool}
use boveda_pyme.Catalog.Valid.{All-select, IsValid}
use boveda_pyme.Purge.{
  ObjectStore, DeleteObjects, is_orphan, chunks_to_purge, execute_two_phase_purge,
}
use boveda_pyme.Purge.Batch.{in_batch, OrphanIf, batch-is_orphan}
use boveda_pyme.Backup.Sound.{Content}
use boveda_pyme.Purge.Phases.{without_batch-IsValid}
use boveda_pyme.Purge.Safety.{outcome, keys_of, execute_two_phase_purge_lem}
use boveda_pyme.Backup.{chunk_key, World}
use boveda_pyme.Backup.Rows.{Keyed, chunk_key-injective}

-- What the program relies on of `delete_objects`: it touches no key that it was not given, whether it
-- returns or raises.
pub record DeletesOnly (delete_objects : DeleteObjects) : Type 0 where
  pub spares :
      (ks : List String) (s3 : ObjectStore) (k : String)
      → some_of (str_eq k) ks ≡ false
      → (delete_objects ks s3).1 k ≡ s3 k

abbrev pub KeyedBatch : List (String × String) → Type 0
KeyedBatch cs = All (λ c. c.1 ≡ chunk_key c.0) cs

pub chunks-KeyedBatch :
    (n : ℕ) (pool : List ChunkPool) → Keyed pool → KeyedBatch (chunks_to_purge n pool)
unfolding chunks_to_purge
chunks-KeyedBatch n pool k =
    All-map_of (λ r. (r.hash_sha256, r.storage_key)) (λ c. c.1 ≡ chunk_key c.0)
      (take n (select is_orphan pool))
      (All-take (λ r. r.storage_key ≡ chunk_key r.hash_sha256) n (select is_orphan pool)
        (All-select (λ r. r.storage_key ≡ chunk_key r.hash_sha256) is_orphan pool k))

-- A row's key is among the keys of the batch exactly if the row is in the batch.
keys_of_batch :
    (r : ChunkPool) (cs : List (String × String))
    → r.storage_key ≡ chunk_key r.hash_sha256
    → KeyedBatch cs
    → some_of (str_eq r.storage_key) (keys_of cs) ≡ in_batch cs r
keys_of_batch r [] e k = refl
keys_of_batch r (c ∷ cs) e k = ground (
  arith,
  k.0,
  eq_iff r.storage_key c.1,
  eq_iff r.hash_sha256 c.0,
  chunk_key-injective r.hash_sha256 c.0,
  ap chunk_key {x = r.hash_sha256} {y = c.0},
  keys_of_batch r cs e k.1,
)

-- Whatever the bucket answers, the purge returns and leaves the catalogue valid.
pub purge-IsValid :
    (delete_objects : DeleteObjects) (n : ℕ) (w : World)
    → IsValid w.db
    → let r = execute_two_phase_purge delete_objects n w in (k : ℕ) × (r.0 ≡ ok k) × IsValid r.1.db
purge-IsValid delete_objects n w v =
    rw (execute_two_phase_purge_lem delete_objects n w v) (left (chunks_to_purge n w.db.chunk_pool))
  where
    left :
        (cs : List (String × String))
        → let r = outcome delete_objects w cs in (k : ℕ) × (r.0 ≡ ok k) × IsValid r.1.db
    left [] = (0, refl, v)
    left (c ∷ cs) = elim (Bool-cases (delete_objects (keys_of (c ∷ cs)) w.s3).0) [
      | inl done ↦ rw done (length (c ∷ cs), refl, without_batch-IsValid (c ∷ cs) w.db v)
      | inr failed ↦ rw failed (0, refl, v)
    ]

-- No purge touches the object of a row that has a reference, also one whose call fails midway.
pub purge-spares :
    (delete_objects : DeleteObjects) (n : ℕ) (w : World)
    → DeletesOnly delete_objects
    → IsValid w.db
    → Keyed w.db.chunk_pool
    → All
        (λ r.
          1 ≤ r.ref_count
          → (execute_two_phase_purge delete_objects n w).1.s3 r.storage_key ≡ w.s3 r.storage_key)
        w.db.chunk_pool
purge-spares delete_objects n w f v k =
    let cs = chunks_to_purge n w.db.chunk_pool in
    let kb = chunks-KeyedBatch n w.db.chunk_pool k in
    rw (execute_two_phase_purge_lem delete_objects n w v) (
      All-map (λ r. (r.storage_key ≡ chunk_key r.hash_sha256) × OrphanIf cs r) _ w.db.chunk_pool
        (λ r a p. spared cs r (keys_of_batch r cs a.0 kb) a.1 p)
        (All-zip _ _ w.db.chunk_pool k (batch-is_orphan n w.db.chunk_pool v.distinct)))
  where
    spared :
        (cs : List (String × String)) (r : ChunkPool)
        → some_of (str_eq r.storage_key) (keys_of cs) ≡ in_batch cs r
        → OrphanIf cs r
        → 1 ≤ r.ref_count
        → (outcome delete_objects w cs).1.s3 r.storage_key ≡ w.s3 r.storage_key
    spared [] r e o p = refl
    spared (c ∷ cs) r e o p = f.spares (keys_of (c ∷ cs)) w.s3 r.storage_key (e ∙ ground arith)

-- Of the rows that are referenced, the object is as it was asked.
abbrev pub Referenced : Content → World → Type 0
Referenced C w = All (λ r. 1 ≤ r.ref_count → C r.hash_sha256 (w.s3 r.storage_key)) w.db.chunk_pool

-- A valid catalogue in step with the bucket, as far as its rows are referenced.
pub record IsBacked (C : Content) (w : World) : Type 0 where
  pub valid : IsValid w.db
  pub keyed : Keyed w.db.chunk_pool
  pub referenced : Referenced C w

-- Whatever is asked of the object of a row: a purge keeps the catalogue valid, and this of the
-- object of every row that is referenced, also when its call removes some objects and then raises.
pub purge-IsBacked :
    (C : Content) (delete_objects : DeleteObjects) (n : ℕ) (w : World)
    → DeletesOnly delete_objects
    → IsBacked C w
    → IsBacked C (execute_two_phase_purge delete_objects n w).1
purge-IsBacked C delete_objects n w f s =
    let pool = w.db.chunk_pool in
    let cs = chunks_to_purge n pool in
    let left_by = execute_two_phase_purge_lem delete_objects n w s.valid in
    let there : All
        (λ r.
          1 ≤ r.ref_count
          → C r.hash_sha256 ((execute_two_phase_purge delete_objects n w).1.s3 r.storage_key))
        pool =
      All-map _ _ pool (λ r a m. subst (C r.hash_sha256) (sym (a.1 m)) (a.0 m))
        (All-zip _ _ pool s.referenced (purge-spares delete_objects n w f s.valid s.keyed)) in
    rw left_by (left cs (Bool-cases (delete_objects (keys_of cs) w.s3).0) (rw left_by at there))
  where
    left :
        (cs : List (String × String))
        → (((delete_objects (keys_of cs) w.s3).0 ≡ true)
            ⊎ ((delete_objects (keys_of cs) w.s3).0 ≡ false))
        → All
            (λ r.
              1 ≤ r.ref_count → C r.hash_sha256 ((outcome delete_objects w cs).1.s3 r.storage_key))
            w.db.chunk_pool
        → IsBacked C (outcome delete_objects w cs).1
    left [] b there = s
    left (c ∷ cs) (inl done) there = rw done record {
      valid = without_batch-IsValid (c ∷ cs) w.db s.valid;
      keyed = All-select _ _ w.db.chunk_pool s.keyed;
      referenced = All-select _ _ w.db.chunk_pool there;
    }
    left (c ∷ cs) (inr failed) there =
        rw failed record { valid = s.valid; keyed = s.keyed; referenced = there }
