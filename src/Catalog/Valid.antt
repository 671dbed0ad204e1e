-- ===== src/Catalog/Valid.antt =====
-- What holds of the catalogue of src/boveda/database.py between two transactions.
use text.Mathlib.TextPositions.{eq_refl}
use boveda_pyme.Prelude.{
  ◌≤◌, subst, sym, ℕ, String, ◌≡◌, refl, ◌∙◌, Bool, true, false, not, inl, inr, List, [], ◌∷◌,
  eq_iff, arith, All, All-map, some_of, select, Bool-cases,
}
use boveda_pyme.Catalog.{
  ChunkPool, Snapshot, SnapshotChunk, Db, has_hash, has_id, links_hash, update_where,
}
use boveda_pyme.Catalog.Refs.{RowIsCounted, PoolIsCounted, refs}

-- Whether the pool has a row for a hash, and whether there is a snapshot of an id.
abbrev pub known : String → List ChunkPool → Bool
known h pool = some_of (has_hash h) pool

abbrev pub has_snapshot : String → List Snapshot → Bool
has_snapshot i ss = some_of (has_id i) ss

-- No hash has two rows.
abbrev pub Distinct : List ChunkPool → Type 0
Distinct [] = Unit
Distinct (r ∷ pool) = (known r.hash_sha256 pool ≡ false) × Distinct pool

abbrev pub Linked : List ChunkPool → List SnapshotChunk → Type 0
Linked pool links = All (λ l. known l.chunk_hash pool ≡ true) links

abbrev pub Owned : List Snapshot → List SnapshotChunk → Type 0
Owned ss links = All (λ l. has_snapshot l.snapshot_id ss ≡ true) links

pub record IsValid (db : Db) : Type 0 where
  pub counted : PoolIsCounted (λ h. refs h db.snapshot_chunks) db.chunk_pool
  pub distinct : Distinct db.chunk_pool
  pub linked : Linked db.chunk_pool db.snapshot_chunks
  pub owned : Owned db.snapshots db.snapshot_chunks

-- An update that keeps the hash of each row.
abbrev pub KeepsHash : (ChunkPool → ChunkPool) → Type 0
KeepsHash f = (r : ChunkPool) → (f r).hash_sha256 ≡ r.hash_sha256

pub known-update :
    (p : ChunkPool → Bool) (f : ChunkPool → ChunkPool) (h : String) (pool : List ChunkPool)
    → KeepsHash f
    → known h (update_where p f pool) ≡ known h pool
known-update p f h [] k = refl
known-update p f h (r ∷ pool) k = ground (arith, k r, known-update p f h pool k)

pub update-Distinct :
    (p : ChunkPool → Bool) (f : ChunkPool → ChunkPool) (pool : List ChunkPool)
    → KeepsHash f
    → Distinct pool
    → Distinct (update_where p f pool)
update-Distinct p f [] k d = tt
update-Distinct p f (r ∷ pool) k d = (
  ground (
    arith,
    k r,
    known-update p f r.hash_sha256 pool k,
    known-update p f (f r).hash_sha256 pool k,
  ),
  update-Distinct p f pool k d.1,
)

pub update-Linked :
    (p : ChunkPool → Bool) (f : ChunkPool → ChunkPool) (pool : List ChunkPool)
    (links : List SnapshotChunk)
    → KeepsHash f
    → Linked pool links
    → Linked (update_where p f pool) links
update-Linked p f pool links k =
    All-map (λ l. known l.chunk_hash pool ≡ true)
      (λ l. known l.chunk_hash (update_where p f pool) ≡ true) links
      (λ l e. known-update p f l.chunk_hash pool k ∙ e)

-- An update that keeps what each row counts.
pub update-PoolIsCounted :
    (p : ChunkPool → Bool) (f : ChunkPool → ChunkPool) (n : String → ℕ) (pool : List ChunkPool)
    → KeepsHash f
    → ((m : ℕ) (r : ChunkPool) → p r ≡ true → RowIsCounted m r → RowIsCounted m (f r))
    → PoolIsCounted n pool
    → PoolIsCounted n (update_where p f pool)
update-PoolIsCounted p f n [] k keep a = tt
update-PoolIsCounted p f n (r ∷ pool) k keep a = (
  elim (Bool-cases (p r)) [
    | inl e ↦
        rw e (subst (λ h. RowIsCounted (n h) (f r)) (sym (k r)) (keep (n r.hash_sha256) r e a.0))
    | inr e ↦ rw e a.0
  ],
  update-PoolIsCounted p f n pool k keep a.1,
)

-- A hash that no link names, by its count, is not found among the links, and conversely.
pub refs-eq-zero :
    (h : String) (ls : List SnapshotChunk) → refs h ls ≡ 0 → some_of (links_hash h) ls ≡ false
refs-eq-zero h [] e = refl
refs-eq-zero h (l ∷ ls) e = ground (arith, refs-eq-zero h ls)

pub refs-ne-zero :
    (h : String) (ls : List SnapshotChunk) → some_of (links_hash h) ls ≡ true → 1 ≤ refs h ls
refs-ne-zero h [] e = absurd (cc)
refs-ne-zero h (l ∷ ls) e = ground (arith, refs-ne-zero h ls)

-- Each link counts itself.
pub links-refs : (ls : List SnapshotChunk) → All (λ l. 1 ≤ refs l.chunk_hash ls) ls
links-refs ls = each ls (λ h n. n)
  where
    each :
        (ks : List SnapshotChunk)
        → ((h : String) → 1 ≤ refs h ks → 1 ≤ refs h ls)
        → All (λ l. 1 ≤ refs l.chunk_hash ls) ks
    each [] within = tt
    each (k ∷ ks) within = (
      within k.chunk_hash (ground (arith, eq_refl k.chunk_hash)),
      each ks (λ h m. within h (ground arith)),
    )

-- Rows that pass `p` may go if they count nothing: what is linked stays known.
pub known-select :
    (p : ChunkPool → Bool) (h : String) (n : String → ℕ) (pool : List ChunkPool)
    → ((r : ChunkPool) → p r ≡ true → r.ref_count ≡ 0)
    → PoolIsCounted n pool
    → 1 ≤ n h
    → known h (select (λ r. not (p r)) pool) ≡ known h pool
known-select p h n [] z a b = refl
known-select p h n (r ∷ pool) z a b =
    ground (arith, z r, a.0, eq_iff r.hash_sha256 h, known-select p h n pool z a.1)

pub select-Distinct :
    (p : ChunkPool → Bool) (pool : List ChunkPool) → Distinct pool → Distinct (select p pool)
select-Distinct p [] d = tt
select-Distinct p (r ∷ pool) d =
    ground (arith, select-Distinct p pool d.1, known-select_false p r.hash_sha256 pool d.0)
  where
    known-select_false :
        (p : ChunkPool → Bool) (h : String) (rows : List ChunkPool)
        → known h rows ≡ false
        → known h (select p rows) ≡ false
    known-select_false p h [] e = refl
    known-select_false p h (q ∷ rows) e = ground (arith, known-select_false p h rows)

pub All-select {κ} :
    (P : ChunkPool → Type κ) (p : ChunkPool → Bool) (pool : List ChunkPool)
    → All P pool
    → All P (select p pool)
All-select P p [] a = tt
All-select P p (r ∷ pool) a = ground (arith, a.0, All-select P p pool a.1)
