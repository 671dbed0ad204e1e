-- ===== src/Catalog/Pool.antt =====
-- The deletion of pool rows by the models of src/boveda/database.py.
use text.Mathlib.TextPositions.{eq_refl}
use boveda_pyme.Prelude.{
  ◌≤◌, ltb, some_of, ◌&&◌, ◌||◌, true, false, String, ◌≡◌, refl, ◌∙◌, Bool, not, List, [], ◌∷◌,
  arith, select, ok,
}
use boveda_pyme.Catalog.{ChunkPool, SnapshotChunk, Db, delete_pool, is_active, links_hash}
use boveda_pyme.Catalog.Refs.{PoolIsCounted, refs}
use boveda_pyme.Catalog.Valid.{
  Linked, All-select, select-Distinct, known-select, refs-eq-zero, IsValid,
}

-- Rows that count nothing and are not active go without a refusal, and leave the catalogue valid.
pub delete_pool-IsValid :
    (p : ChunkPool → Bool) (db : Db)
    → ((r : ChunkPool) → p r ≡ true → (r.ref_count ≡ 0) × (is_active r.state ≡ false))
    → IsValid db
    → let db' = record db { chunk_pool = select (λ r. not (p r)) db.chunk_pool } in
      (delete_pool p db ≡ ok db') × IsValid db'
unfolding delete_pool
delete_pool-IsValid p db z v = (
  rw (unused db.chunk_pool) (rw (unlinked db.chunk_pool v.counted) refl),
  record {
    counted = All-select _ (λ r. not (p r)) db.chunk_pool v.counted;
    distinct = select-Distinct (λ r. not (p r)) db.chunk_pool v.distinct;
    linked = still_linked db.snapshot_chunks v.linked (λ l m. m);
    owned = v.owned;
  },
)
  where
    unused :
        (pool : List ChunkPool)
        → some_of (λ r. p r && (ltb 0 r.ref_count || is_active r.state)) pool ≡ false
    unused [] = refl
    unused (r ∷ pool) = ground (arith, z r, unused pool)

    unlinked :
        (pool : List ChunkPool)
        → PoolIsCounted (λ h. refs h db.snapshot_chunks) pool
        → some_of (λ r. p r && some_of (links_hash r.hash_sha256) db.snapshot_chunks) pool ≡ false
    unlinked [] a = refl
    unlinked (r ∷ pool) a =
        ground (arith, z r, a.0, unlinked pool a.1, refs-eq-zero r.hash_sha256 db.snapshot_chunks)

    still_linked :
        (ls : List SnapshotChunk)
        → Linked db.chunk_pool ls
        → ((h : String) → 1 ≤ refs h ls → 1 ≤ refs h db.snapshot_chunks)
        → Linked (select (λ r. not (p r)) db.chunk_pool) ls
    still_linked [] k within = tt
    still_linked (l ∷ ls) k within = (
      known-select p l.chunk_hash (λ h. refs h db.snapshot_chunks) db.chunk_pool (λ r e. (z r e).0)
            v.counted (within l.chunk_hash (ground (arith, eq_refl l.chunk_hash)))
          ∙ k.0,
      still_linked ls k.1 (λ h m. within h (ground arith)),
    )
