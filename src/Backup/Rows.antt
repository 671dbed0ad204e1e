-- ===== src/Backup/Rows.antt =====
-- The first transaction of the upload in src/boveda/cli.py: it finds or makes the row of a chunk.
use text.Mathlib.TextLemmas.{append_cancel_left, append_cancel_right}
use boveda_pyme.Prelude.{
  ℕ, String, ◌≡◌, refl, false, ◌||◌, List, [], ◌∷◌, ◌++◌, arith, eq_iff, some_of, All, All-map,
  All-append, ok,
}
use boveda_pyme.Catalog.{ChunkPool, SnapshotChunk, Db, has_hash, update_where}
use boveda_pyme.Catalog.Refs.{refs}
use boveda_pyme.Catalog.Valid.{
  IsValid, Distinct, Linked, known, update-PoolIsCounted, update-Distinct, update-Linked,
}
use boveda_pyme.Backup.{chunk_key, has_key, new_pool, insert_pool, reactivate}

-- Every row's storage key is the one that its hash gives.
abbrev pub Keyed : List ChunkPool → Type 0
Keyed pool = All (λ r. r.storage_key ≡ chunk_key r.hash_sha256) pool

pub chunk_key-injective : (h k : String) → chunk_key h ≡ chunk_key k → h ≡ k
unfolding chunk_key
chunk_key-injective h k e = append_cancel_right h k ".bin" (append_cancel_left "chunks/" _ _ e)

-- A hash without a row has no row with its key either.
key_is_free :
    (h : String) (pool : List ChunkPool)
    → Keyed pool
    → known h pool ≡ false
    → some_of (has_key (chunk_key h)) pool ≡ false
key_is_free h [] k e = refl
key_is_free h (r ∷ pool) k e = ground (
  arith,
  k.0,
  eq_iff r.hash_sha256 h,
  eq_iff r.storage_key (chunk_key h),
  chunk_key-injective r.hash_sha256 h,
  key_is_free h pool k.1,
)

-- A hash without a row has no link.
pub refs_of_unknown :
    (h : String) (pool : List ChunkPool) (ls : List SnapshotChunk)
    → Linked pool ls
    → known h pool ≡ false
    → refs h ls ≡ 0
refs_of_unknown h pool [] k e = refl
refs_of_unknown h pool (l ∷ ls) k e =
    ground (arith, k.0, eq_iff l.chunk_hash h, refs_of_unknown h pool ls k.1 e)

pub known-append :
    (h : String) (pool : List ChunkPool) (r : ChunkPool)
    → known h (pool ++ r ∷ []) ≡ (known h pool || has_hash h r)
known-append h [] r = ground arith
known-append h (q ∷ pool) r = ground (arith, known-append h pool r)

append-Distinct :
    (pool : List ChunkPool) (r : ChunkPool)
    → known r.hash_sha256 pool ≡ false
    → Distinct pool
    → Distinct (pool ++ r ∷ [])
append-Distinct [] r e d = (refl, tt)
append-Distinct (q ∷ pool) r e d = (
  ground (
    arith,
    d.0,
    known-append q.hash_sha256 pool r,
    eq_iff r.hash_sha256 q.hash_sha256,
    eq_iff q.hash_sha256 r.hash_sha256,
  ),
  append-Distinct pool r (ground arith) d.1,
)

-- A new row for a hash that has none leaves the catalogue valid.
pub new_pool-IsValid :
    (now : ℕ) (h : String) (payload : List ℕ) (db : Db)
    → IsValid db
    → known h db.chunk_pool ≡ false
    → IsValid (record db { chunk_pool = db.chunk_pool ++ new_pool now h payload ∷ [] })
unfolding new_pool
new_pool-IsValid now h payload db v e =
    let row = new_pool now h payload in
    record {
      counted =
          All-append _ db.chunk_pool (row ∷ []) v.counted
            (ground (arith, refs_of_unknown h db.chunk_pool db.snapshot_chunks v.linked e), tt);
      distinct = append-Distinct db.chunk_pool row e v.distinct;
      linked =
          All-map _ _ db.snapshot_chunks
            (λ l k. ground (arith, known-append l.chunk_hash db.chunk_pool row)) v.linked;
      owned = v.owned;
    }

-- Reactivating rows leaves the catalogue valid.
pub reactivate-IsValid :
    (h : String) (db : Db)
    → IsValid db
    → IsValid (record db { chunk_pool = update_where (has_hash h) reactivate db.chunk_pool })
unfolding reactivate
reactivate-IsValid h db v =
    let keeps = λ (r : ChunkPool). keeps_hash r in
    record {
      counted =
          update-PoolIsCounted (has_hash h) reactivate (λ h. refs h db.snapshot_chunks)
            db.chunk_pool keeps_hash (λ m r p a. ground arith) v.counted;
      distinct = update-Distinct (has_hash h) reactivate db.chunk_pool keeps_hash v.distinct;
      linked =
          update-Linked (has_hash h) reactivate db.chunk_pool db.snapshot_chunks keeps_hash
            v.linked;
      owned = v.owned;
    }
  where
    keeps_hash : (r : ChunkPool) → (reactivate r).hash_sha256 ≡ r.hash_sha256
    keeps_hash r = ground arith

-- For a keyed catalogue the two constraints on a new row hold.
pub insert_pool_lem :
    (now : ℕ) (h : String) (payload : List ℕ) (db : Db)
    → Keyed db.chunk_pool
    → known h db.chunk_pool ≡ false
    → insert_pool (new_pool now h payload) db
      ≡ ok (record db { chunk_pool = db.chunk_pool ++ new_pool now h payload ∷ [] })
unfolding insert_pool new_pool
insert_pool_lem now h payload db k e = rw (e, key_is_free h db.chunk_pool k e) refl
