-- ===== src/Backup/Sound.antt =====
-- The catalogue and the bucket together, around the upload of src/boveda/cli.py: every row that is
-- not being deleted has its object. What is asked of the object is a parameter: nothing, say,
-- or that it has the hash of the row.
use text.Mathlib.TextPositions.{eq_refl}
use boveda_pyme.Prelude.{
  ℕ, String, ◌≡◌, refl, subst, inl, inr, Bool, true, false, ◌&&◌, none, some, List, [], ◌∷◌, arith,
  eq_iff, if◌then◌else◌, Bool-cases, first_such, All, All-map, Option, sym,
}
use boveda_pyme.Catalog.{ChunkPool, Db, is_purging_s3, has_hash, update_where}
use boveda_pyme.Catalog.Valid.{IsValid, Distinct, known}
use boveda_pyme.Catalog.Refs.{refs}
use boveda_pyme.Purge.{ObjectStore, World}
use boveda_pyme.Backup.{chunk_key}
use boveda_pyme.Backup.Rows.{Keyed}

-- What is asked of the object under the key of a row, by the hash of the row.
abbrev pub Content : Type 1
Content = String → Option (List ℕ) → Type 0

abbrev pub Anything : Content
Anything h o = Unit

-- The object is addressed by its content.
abbrev pub HasHash : (List ℕ → String) → Content
HasHash sha256 h o = (body : List ℕ) × (o ≡ some body) × (sha256 body ≡ h)

abbrev pub Stored : Content → List ChunkPool → ObjectStore → Type 0
Stored C pool s3 =
    All (λ r. is_purging_s3 r.state ≡ false → C r.hash_sha256 (s3 r.storage_key)) pool

-- The content of a row, by the values of its hash and key.
pub content_at :
    (C : Content) (s3 : ObjectStore) (r : ChunkPool) {h k : String}
    → r.hash_sha256 ≡ h
    → r.storage_key ≡ k
    → C h (s3 k)
    → C r.hash_sha256 (s3 r.storage_key)
content_at C s3 r {h} {k} same at_key c =
    subst (λ x. C x (s3 r.storage_key)) (sym same) (subst (λ x. C h (s3 x)) (sym at_key) c)

pub record IsSound (C : Content) (w : World) : Type 0 where
  pub valid : IsValid w.db
  pub keyed : Keyed w.db.chunk_pool
  pub stored : Stored C w.db.chunk_pool w.s3

-- What the first transaction hands to the upload.
pub record IsPrepared (C : Content) (h : String) (old : Db) (s3 : ObjectStore)
    (p : String × Bool × Db) : Type 0 where
  pub key : p.0 ≡ chunk_key h
  pub valid : IsValid p.2
  pub keyed : Keyed p.2.chunk_pool
  pub stored :
      All
        (λ r.
          is_purging_s3 r.state ≡ false
          → (p.1 && has_hash h r) ≡ false
          → C r.hash_sha256 (s3 r.storage_key))
        p.2.chunk_pool
  pub present : p.1 ≡ false → C h (s3 (chunk_key h))
  pub unlinked : p.1 ≡ true → refs h old.snapshot_chunks ≡ 0
  pub has_row : known h p.2.chunk_pool ≡ true
  pub same_links : p.2.snapshot_chunks ≡ old.snapshot_chunks
  pub same_snapshots : p.2.snapshots ≡ old.snapshots

pub none-known :
    (h : String) (pool : List ChunkPool)
    → first_such (has_hash h) pool ≡ none
    → known h pool ≡ false
none-known h [] e = refl
none-known h (r ∷ pool) e = ground (arith, none-known h pool)

pub found-known :
    (h : String) (r : ChunkPool) (pool : List ChunkPool)
    → first_such (has_hash h) pool ≡ some r
    → known h pool ≡ true
found-known h r [] e = cc
found-known h r (q ∷ pool) e = ground (arith, found-known h r pool)

unknown-has_hash :
    (h : String) (pool : List ChunkPool)
    → known h pool ≡ false
    → All (λ q. has_hash h q ≡ false) pool
unknown-has_hash h [] e = tt
unknown-has_hash h (r ∷ pool) e = (ground arith, unknown-has_hash h pool (ground arith))

-- The row that is found is the only one of its hash.
pub found-only :
    (h : String) (r : ChunkPool) (pool : List ChunkPool)
    → Distinct pool
    → first_such (has_hash h) pool ≡ some r
    → All (λ q. has_hash h q ≡ true → q ≡ r) pool
found-only h r [] d e = tt
found-only h r (q ∷ pool) d e = elim (Bool-cases (has_hash h q)) [
  | inl is ↦ (
    λ m. ground arith,
    All-map (λ p. has_hash q.hash_sha256 p ≡ false) (λ p. has_hash h p ≡ true → p ≡ r) pool
        (λ p k m. ground (arith, eq_iff q.hash_sha256 h, eq_iff p.hash_sha256 h, eq_refl h))
        (unknown-has_hash q.hash_sha256 pool d.0),
  )
  | inr not_is ↦ (λ m. cc, found-only h r pool d.1 (ground arith))
]

pub found-has_hash :
    (h : String) (r : ChunkPool) (pool : List ChunkPool)
    → first_such (has_hash h) pool ≡ some r
    → has_hash h r ≡ true
found-has_hash h r [] e = cc
found-has_hash h r (q ∷ pool) e = ground (arith, found-has_hash h r pool)

-- The fields of the row that is found, where every row has them.
pub found_All {κ} :
    (P : ChunkPool → Type κ) (h : String) (r : ChunkPool) (pool : List ChunkPool)
    → first_such (has_hash h) pool ≡ some r
    → All P pool
    → P r
found_All P h r [] e a = absurd (cc)
found_All P h r (q ∷ pool) e a = elim (Bool-cases (has_hash h q)) [
  | inl is ↦ subst P (ground arith) a.0
  | inr not_is ↦ found_All P h r pool (ground arith) a.1
]

pub All-update {κ} :
    (P : ChunkPool → Type κ) (p : ChunkPool → Bool) (f : ChunkPool → ChunkPool)
    (pool : List ChunkPool)
    → All (λ r. P (if p r then f r else r)) pool
    → All P (update_where p f pool)
All-update P p f [] a = tt
All-update P p f (r ∷ pool) a = (a.0, All-update P p f pool a.1)

-- A known hash has a row.
pub known-found :
    (h : String) (pool : List ChunkPool)
    → known h pool ≡ true
    → (r : ChunkPool) × (first_such (has_hash h) pool ≡ some r)
known-found h [] k = absurd (cc)
known-found h (q ∷ pool) k = elim (Bool-cases (has_hash h q)) [
  | inl is ↦ (q, ground arith)
  | inr not_is ↦ let (r, e) = known-found h pool (ground arith) in (r, ground arith)
]
