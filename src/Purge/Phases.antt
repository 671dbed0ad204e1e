-- ===== src/Purge/Phases.antt =====
-- What the two phases of src/boveda/retention.py make of the pool.
use boveda_pyme.Prelude.{
  ℕ, ◌+◌, String, ◌≡◌, refl, ap, ◌∙◌, Bool, true, false, not, ◌&&◌, List, [], ◌∷◌, arith, ◌==◌,
  length, select, All, ok, subst,
}
use boveda_pyme.Catalog.{
  ChunkPool, Db, purging_s3, pending_delete, is_purging_s3, has_hash, update_where,
}
use boveda_pyme.Catalog.Refs.{RowIsCounted, refs}
use boveda_pyme.Catalog.Valid.{IsValid, update-PoolIsCounted, update-Distinct, update-Linked}
use boveda_pyme.Catalog.Pool.{delete_pool-IsValid}
use boveda_pyme.Purge.{
  set_state, to_purge, chunks_to_purge, mark_purging, phase_1, phase_2, confirm, revert,
}
use boveda_pyme.Purge.Batch.{in_batch, OrphanIf, mark_purging_lem, revert_lem, batch-is_orphan}

-- Setting a state on rows that count nothing keeps the catalogue valid.
state-IsValid :
    (p : ChunkPool → Bool) (f : ChunkPool → ChunkPool) (db : Db)
    → ((r : ChunkPool) → (f r).hash_sha256 ≡ r.hash_sha256)
    → ((m : ℕ) (r : ChunkPool) → p r ≡ true → RowIsCounted m r → RowIsCounted m (f r))
    → IsValid db
    → IsValid (record db { chunk_pool = update_where p f db.chunk_pool })
state-IsValid p f db k keep v = record {
  counted =
      update-PoolIsCounted p f (λ h. refs h db.snapshot_chunks) db.chunk_pool k keep v.counted;
  distinct = update-Distinct p f db.chunk_pool k v.distinct;
  linked = update-Linked p f db.chunk_pool db.snapshot_chunks k v.linked;
  owned = v.owned;
}

abbrev pub with_pool : List ChunkPool → Db → Db
with_pool pool db = record db { chunk_pool = pool }

pub mark_purging-IsValid :
    (cs : List (String × String)) (db : Db)
    → IsValid db
    → IsValid (with_pool (mark_purging cs db.chunk_pool) db)
mark_purging-IsValid cs db v = rw (mark_purging_lem cs db.chunk_pool) (
    state-IsValid (λ r. in_batch cs r && (r.ref_count == 0)) (set_state purging_s3) db (λ r. refl)
      (λ m r p h. ground arith) v)

pub revert-IsValid :
    (cs : List (String × String)) (db : Db)
    → IsValid db
    → IsValid (with_pool (revert cs db.chunk_pool) db)
revert-IsValid cs db v = rw (revert_lem cs db.chunk_pool) (
    state-IsValid (λ r. in_batch cs r && is_purging_s3 r.state) (set_state pending_delete) db
      (λ r. refl) (λ m r p h. ground arith) v)

abbrev is_doomed : List (String × String) → ChunkPool → Bool
is_doomed cs r = in_batch cs r && to_purge r

select_every : (pool : List ChunkPool) → select (λ r. not (is_doomed [] r)) pool ≡ pool
select_every [] = refl
select_every (r ∷ pool) = ap (◌∷◌ r) (select_every pool)

select-select :
    (c : String × String) (cs : List (String × String)) (pool : List ChunkPool)
    → select (λ r. not (is_doomed cs r)) (select (λ r. not (has_hash c.0 r && to_purge r)) pool)
      ≡ select (λ r. not (is_doomed (c ∷ cs) r)) pool
select-select c cs [] = refl
select-select c cs (r ∷ pool) = ground (arith, select-select c cs pool)

-- Phase 2 after a successful call is never refused, deletes exactly the rows of the batch that are
-- still marked and unreferenced, and counts the batch.
pub confirm_lem :
    (cs : List (String × String)) (n : ℕ) (db : Db)
    → IsValid db
    → let db' = with_pool (select (λ r. not (is_doomed cs r)) db.chunk_pool) db in
      (confirm cs n db ≡ ok (n + length cs, db')) × IsValid db'
unfolding confirm
confirm_lem [] n db v = rw (select_every db.chunk_pool) (ground arith, v)
confirm_lem (c ∷ cs) n db v =
    let p = λ (r : ChunkPool). has_hash c.0 r && to_purge r in
    let (done, v') = delete_pool-IsValid p db (λ r e. ground arith) v in
    let (rest, v'') =
      confirm_lem cs (n + 1) (with_pool (select (λ r. not (p r)) db.chunk_pool) db) v' in
    let left = select (λ r. not (is_doomed cs r)) (select (λ r. not (p r)) db.chunk_pool) in
    rw (← select-select c cs db.chunk_pool)
      (rw done (rest ∙ ap (λ k. ok (k, with_pool left db)) (omega arith)), v'')

-- What is left of the pool when the batch is deleted: all but the unreferenced rows in it.
abbrev pub without_batch : List (String × String) → List ChunkPool → List ChunkPool
without_batch cs pool = select (λ r. not (in_batch cs r && (r.ref_count == 0))) pool

marked-without :
    (cs : List (String × String)) (pool : List ChunkPool)
    → select
        (λ r. not (is_doomed cs r))
        (update_where (λ r. in_batch cs r && (r.ref_count == 0)) (set_state purging_s3) pool)
      ≡ without_batch cs pool
marked-without cs [] = refl
marked-without cs (r ∷ pool) = ground (arith, marked-without cs pool)

-- Reverting the rows of a batch of orphans undoes their marking.
marked-reverted :
    (cs : List (String × String)) (pool : List ChunkPool)
    → All (OrphanIf cs) pool
    → update_where
        (λ r. in_batch cs r && is_purging_s3 r.state)
        (set_state pending_delete)
        (update_where (λ r. in_batch cs r && (r.ref_count == 0)) (set_state purging_s3) pool)
      ≡ pool
marked-reverted cs [] a = refl
marked-reverted cs (r ∷ pool) a = ground (arith, a.0, marked-reverted cs pool a.1)

-- Deleting the unreferenced rows of a batch leaves the catalogue valid.
pub without_batch-IsValid :
    (cs : List (String × String)) (db : Db)
    → IsValid db
    → IsValid (with_pool (without_batch cs db.chunk_pool) db)
without_batch-IsValid cs db v =
    subst (λ pool. IsValid (with_pool pool db))
      (ap (select (λ r. not (is_doomed cs r))) (mark_purging_lem cs db.chunk_pool)
        ∙ marked-without cs db.chunk_pool)
      (confirm_lem cs 0 (with_pool (mark_purging cs db.chunk_pool) db)
        (mark_purging-IsValid cs db v)).1

-- After a successful call the two phases delete the batch from the pool, and nothing else.
pub phases_confirm :
    (n : ℕ) (db : Db)
    → IsValid db
    → let (cs, marked) = phase_1 n db in
      phase_2 true cs marked ≡ ok (length cs, with_pool (without_batch cs db.chunk_pool) db)
unfolding phase_1 phase_2
phases_confirm n db v =
    let cs = chunks_to_purge n db.chunk_pool in
    let marked = with_pool (mark_purging cs db.chunk_pool) db in
    (confirm_lem cs 0 marked (mark_purging-IsValid cs db v)).0
    ∙ rw (mark_purging_lem cs db.chunk_pool) (
        rw (marked-without cs db.chunk_pool)
          (ap (λ k. ok (k, with_pool (without_batch cs db.chunk_pool) db)) (omega arith)))

-- After a failed call the two phases leave the catalogue as it was.
pub phases_revert :
    (n : ℕ) (db : Db)
    → IsValid db
    → let (cs, marked) = phase_1 n db in phase_2 false cs marked ≡ ok (0, db)
unfolding phase_1 phase_2
phases_revert n db v =
    let cs = chunks_to_purge n db.chunk_pool in
    rw (revert_lem cs (mark_purging cs db.chunk_pool)) (
      rw (mark_purging_lem cs db.chunk_pool)
        (rw (marked-reverted cs db.chunk_pool (batch-is_orphan n db.chunk_pool v.distinct)) refl))
