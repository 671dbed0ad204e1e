-- ===== src/Catalog/Refs.antt =====
-- The counting invariant of the catalogue: the column `ref_count` against the rows of
-- `snapshot_chunks`, through the triggers of src/boveda/database.py.
use boveda_pyme.Prelude.{
  ℕ, ◌+◌, String, ◌≡◌, refl, Bool, true, ◌||◌, inl, inr, List, [], ◌∷◌, ◌++◌, if◌then◌else◌, eq_iff,
  arith, All, All-map, Bool-cases,
}
use boveda_pyme.Catalog.{
  ChunkPool, SnapshotChunk, is_pending_delete, is_purging_s3, links_hash, on_link, on_unlink,
  after_insert, after_delete, unlink_where,
}

-- How many links name a hash.
abbrev pub refs : String → List SnapshotChunk → ℕ
refs h [] = 0
refs h (l ∷ ls) = (if links_hash h l then 1 else 0) + refs h ls

-- What the catalogue knows of one row: it counts `n` links, and a row that waits for deletion or
-- is being deleted counts none.
pub record RowIsCounted (n : ℕ) (r : ChunkPool) : Type 0 where
  pub counted : r.ref_count ≡ n
  pub idle : (is_pending_delete r.state || is_purging_s3 r.state) ≡ true → r.ref_count ≡ 0

-- Every row counts the links that `n` says it has.
abbrev pub PoolIsCounted : (String → ℕ) → List ChunkPool → Type 0
PoolIsCounted n pool = All (λ r. RowIsCounted (n r.hash_sha256) r) pool

pub refs-append :
    (h : String) (ks ls : List SnapshotChunk) → refs h (ks ++ ls) ≡ refs h ks + refs h ls
refs-append h [] ls = omega arith
refs-append h (k ∷ ks) ls = omega (arith, refs-append h ks ls)

link-RowIsCounted :
    (now : ℕ) (r : ChunkPool) (n : ℕ) → RowIsCounted n r → RowIsCounted (n + 1) (on_link now r)
unfolding on_link
link-RowIsCounted now r n h = ground arith

unlink-RowIsCounted :
    (now : ℕ) (r : ChunkPool) (n : ℕ) → RowIsCounted (1 + n) r → RowIsCounted n (on_unlink now r)
unfolding on_unlink
unlink-RowIsCounted now r n h = ground arith

hash-on_link : (now : ℕ) (r : ChunkPool) → (on_link now r).hash_sha256 ≡ r.hash_sha256
unfolding on_link
hash-on_link now r = refl

-- Inserting a link to `h` adds one to the rows of `h`.
pub after_insert-PoolIsCounted :
    (now : ℕ) (l : SnapshotChunk) (n : String → ℕ) (pool : List ChunkPool)
    → PoolIsCounted n pool
    → PoolIsCounted (λ h. n h + refs h (l ∷ [])) (after_insert now l.chunk_hash pool)
unfolding on_link
after_insert-PoolIsCounted now l n [] a = tt
after_insert-PoolIsCounted now l n (r ∷ pool) a = (
  ground (arith, a.0, eq_iff r.hash_sha256 l.chunk_hash, eq_iff l.chunk_hash r.hash_sha256),
  after_insert-PoolIsCounted now l n pool a.1,
)

-- Deleting a link to `h` takes one from the rows of `h`.
pub after_delete-PoolIsCounted :
    (now : ℕ) (l : SnapshotChunk) (n : String → ℕ) (pool : List ChunkPool)
    → PoolIsCounted (λ h. refs h (l ∷ []) + n h) pool
    → PoolIsCounted n (after_delete now l.chunk_hash pool)
unfolding on_unlink
after_delete-PoolIsCounted now l n [] a = tt
after_delete-PoolIsCounted now l n (r ∷ pool) a = (
  ground (arith, a.0, eq_iff r.hash_sha256 l.chunk_hash, eq_iff l.chunk_hash r.hash_sha256),
  after_delete-PoolIsCounted now l n pool a.1,
)

pub PoolIsCounted-cong :
    (m n : String → ℕ) (pool : List ChunkPool)
    → ((h : String) → m h ≡ n h)
    → PoolIsCounted m pool
    → PoolIsCounted n pool
PoolIsCounted-cong m n pool e =
    All-map (λ r. RowIsCounted (m r.hash_sha256) r) (λ r. RowIsCounted (n r.hash_sha256) r) pool
      (λ r k. ground (arith, e r.hash_sha256))

-- Deleting links one by one keeps the count of the links that remain, with `k` for links elsewhere.
pub unlink_where-PoolIsCounted :
    (now : ℕ) (p : SnapshotChunk → Bool) (k : String → ℕ) (ls : List SnapshotChunk)
    (pool : List ChunkPool)
    → PoolIsCounted (λ h. k h + refs h ls) pool
    → let (kept, pool') = unlink_where now p ls pool in PoolIsCounted (λ h. k h + refs h kept) pool'
unfolding unlink_where
unlink_where-PoolIsCounted now p k [] pool a = a
unlink_where-PoolIsCounted now p k (l ∷ ls) pool a = elim (Bool-cases (p l)) [
  | inl gone ↦ rw gone (
      unlink_where-PoolIsCounted now p k ls (after_delete now l.chunk_hash pool) (
        after_delete-PoolIsCounted now l (λ h. k h + refs h ls) pool
          (PoolIsCounted-cong _ _ pool (λ h. omega arith) a)))
  | inr stays ↦ rw stays (
      PoolIsCounted-cong _ _ (unlink_where now p ls pool).1 (λ h. omega arith)
        (unlink_where-PoolIsCounted now p (λ h. k h + refs h (l ∷ [])) ls pool
          (PoolIsCounted-cong _ _ pool (λ h. omega arith) a)))
]
