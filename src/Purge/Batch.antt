-- ===== src/Purge/Batch.antt =====
-- The batch of src/boveda/retention.py: which rows the loops of the two phases touch.
use boveda_pyme.Prelude.{
  subst, All-intro, ℕ, zero, suc, String, ◌≡◌, refl, sym, ◌∙◌, inl, inr, Bool, true, false, ◌&&◌,
  List, [], ◌∷◌, arith, str_eq, eq_iff, ◌==◌, if◌then◌else◌, Bool-cases, some_of, All, All-map,
  All-zip,
}
use boveda_pyme.Catalog.{
  ChunkPool, purging_s3, pending_delete, is_purging_s3, has_hash, update_where,
}
use boveda_pyme.Catalog.Valid.{Distinct, known}
use boveda_pyme.Purge.{is_orphan, set_state, chunks_to_purge, mark_purging, revert}

-- Whether the row is one of a batch.
abbrev pub in_batch : List (String × String) → ChunkPool → Bool
in_batch cs r = some_of (λ c. str_eq r.hash_sha256 c.0) cs

-- An update of rows is a map, so two updates of the same rows meet row by row.
update_where-cong :
    (p q s : ChunkPool → Bool) (f g k : ChunkPool → ChunkPool) (pool : List ChunkPool)
    → ((r : ChunkPool)
        → (if p (if q r then g r else r)
            then f (if q r then g r else r)
            else (if q r then g r else r))
          ≡ (if s r then k r else r))
    → update_where p f (update_where q g pool) ≡ update_where s k pool
update_where-cong p q s f g k [] e = refl
update_where-cong p q s f g k (r ∷ pool) e = cc (e r, update_where-cong p q s f g k pool e)

update_where_none :
    (p : ChunkPool → Bool) (f : ChunkPool → ChunkPool) (pool : List ChunkPool)
    → ((r : ChunkPool) → p r ≡ false)
    → update_where p f pool ≡ pool
update_where_none p f [] e = refl
update_where_none p f (r ∷ pool) e = ground (arith, e r, update_where_none p f pool e)

-- Phase 1 marks the rows of the batch that have no reference, all at once.
pub mark_purging_lem :
    (cs : List (String × String)) (pool : List ChunkPool)
    → mark_purging cs pool
      ≡ update_where (λ r. in_batch cs r && (r.ref_count == 0)) (set_state purging_s3) pool
unfolding mark_purging
mark_purging_lem [] pool = sym (update_where_none _ (set_state purging_s3) pool (λ r. refl))
mark_purging_lem (c ∷ cs) pool =
    mark_purging_lem cs _
    ∙ update_where-cong (λ r. in_batch cs r && (r.ref_count == 0))
        (λ r. has_hash c.0 r && (r.ref_count == 0)) (λ r. in_batch (c ∷ cs) r && (r.ref_count == 0))
        (set_state purging_s3) (set_state purging_s3) (set_state purging_s3) pool
        (λ r. ground arith)

pub revert_lem :
    (cs : List (String × String)) (pool : List ChunkPool)
    → revert cs pool
      ≡ update_where (λ r. in_batch cs r && is_purging_s3 r.state) (set_state pending_delete) pool
unfolding revert
revert_lem [] pool = sym (update_where_none _ (set_state pending_delete) pool (λ r. refl))
revert_lem (c ∷ cs) pool =
    revert_lem cs _
    ∙ update_where-cong (λ r. in_batch cs r && is_purging_s3 r.state)
        (λ r. has_hash c.0 r && is_purging_s3 r.state)
        (λ r. in_batch (c ∷ cs) r && is_purging_s3 r.state) (set_state pending_delete)
        (set_state pending_delete) (set_state pending_delete) pool (λ r. ground arith)

-- Where the pool has no row of a hash, no batch from it has one.
batch_known :
    (n : ℕ) (r : ChunkPool) (pool : List ChunkPool)
    → known r.hash_sha256 pool ≡ false
    → in_batch (chunks_to_purge n pool) r ≡ false
unfolding chunks_to_purge
batch_known n r [] e = elim n as (λ k. in_batch (chunks_to_purge k []) r ≡ false) [
  | zero ↦ refl
  | suc m ↦ refl
]
batch_known zero r (q ∷ pool) e = refl
batch_known (suc n) r (q ∷ pool) e = ground (
  arith,
  eq_iff r.hash_sha256 q.hash_sha256,
  eq_iff q.hash_sha256 r.hash_sha256,
  batch_known n r pool,
  batch_known (suc n) r pool,
)

apart :
    (h : String) (pool : List ChunkPool)
    → known h pool ≡ false
    → All (λ r. has_hash h r ≡ false) pool
apart h [] e = tt
apart h (r ∷ pool) e = (ground arith, apart h pool (ground arith))

abbrev pub OrphanIf : List (String × String) → ChunkPool → Type 0
OrphanIf cs r = in_batch cs r ≡ true → is_orphan r ≡ true

for_batch :
    {cs ds : List (String × String)} (pool : List ChunkPool)
    → cs ≡ ds
    → All (OrphanIf ds) pool
    → All (OrphanIf cs) pool
for_batch pool e a = subst (λ cs. All (OrphanIf cs) pool) (sym e) a

no_chunks : (pool : List ChunkPool) → chunks_to_purge zero pool ≡ []
unfolding chunks_to_purge
no_chunks pool = refl

chunks_orphan :
    (n : ℕ) (q : ChunkPool) (pool : List ChunkPool)
    → is_orphan q ≡ true
    → chunks_to_purge (suc n) (q ∷ pool) ≡ (q.hash_sha256, q.storage_key) ∷ chunks_to_purge n pool
unfolding chunks_to_purge
chunks_orphan n q pool e = ground arith

chunks_other :
    (n : ℕ) (q : ChunkPool) (pool : List ChunkPool)
    → is_orphan q ≡ false
    → chunks_to_purge n (q ∷ pool) ≡ chunks_to_purge n pool
unfolding chunks_to_purge
chunks_other n q pool e = ground arith

-- The rows of the batch are orphans: the hash tells rows apart.
pub batch-is_orphan :
    (n : ℕ) (pool : List ChunkPool) → Distinct pool → All (OrphanIf (chunks_to_purge n pool)) pool
batch-is_orphan n [] d = tt
batch-is_orphan zero (q ∷ pool) d =
    for_batch (q ∷ pool) (no_chunks (q ∷ pool))
      (All-intro (OrphanIf []) (q ∷ pool) (λ r e. absurd (cc)))
batch-is_orphan (suc n) (q ∷ pool) d = elim (Bool-cases (is_orphan q)) [
  | inl is ↦ for_batch (q ∷ pool) (chunks_orphan n q pool is) (
    λ e. is,
    All-map _ (OrphanIf ((q.hash_sha256, q.storage_key) ∷ chunks_to_purge n pool)) pool
        (λ r h e. h.0 (ground (arith, h.1)))
        (All-zip _ _ pool (batch-is_orphan n pool d.1) (apart q.hash_sha256 pool d.0)),
  )
  | inr not_is ↦ for_batch (q ∷ pool) (chunks_other (suc n) q pool not_is) (
    λ e. absurd (ground (arith, batch_known (suc n) q pool d.0)),
    batch-is_orphan (suc n) pool d.1,
  )
]
