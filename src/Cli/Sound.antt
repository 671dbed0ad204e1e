-- ===== src/Cli/Sound.antt =====
-- What the links of src/boveda/cli.py find in a bucket that is in step with the catalogue.
use boveda_pyme.Prelude.{
  ◌≤◌, String, ◌≡◌, refl, ap, ◌∙◌, sym, subst, true, false, arith, eq_iff, select, All, All-map,
  All-select_if, All-zip,
}
use boveda_pyme.Catalog.{SnapshotChunk, is_purging_s3, of_snapshot}
use boveda_pyme.Catalog.Refs.{refs, RowIsCounted}
use boveda_pyme.Catalog.Valid.{known, links-refs}
use boveda_pyme.Purge.{World}
use boveda_pyme.Backup.{chunk_key}
use boveda_pyme.Backup.Sound.{Content, IsSound, found_All, found-has_hash, known-found}
use boveda_pyme.Cli.{storage_key_of}

-- A link whose hash has a row that is counted finds the key and the content of the row.
pub record FindsContent (C : Content) (w : World) (l : SnapshotChunk) : Type 0 where
  pub key : storage_key_of w.db.chunk_pool l ≡ chunk_key l.chunk_hash
  pub content : C l.chunk_hash (w.s3 (storage_key_of w.db.chunk_pool l))

known-FindsContent :
    (C : Content) (w : World) (l : SnapshotChunk)
    → IsSound C w
    → known l.chunk_hash w.db.chunk_pool ≡ true
    → 1 ≤ refs l.chunk_hash w.db.snapshot_chunks
    → FindsContent C w l
known-FindsContent C w l s k n =
    let pool = w.db.chunk_pool in
    let (r, e) = known-found l.chunk_hash pool k in
    let same = (eq_iff r.hash_sha256 l.chunk_hash).0 (found-has_hash l.chunk_hash r pool e) in
    let counted =
      found_All (λ q. RowIsCounted (refs q.hash_sha256 w.db.snapshot_chunks) q) l.chunk_hash r pool
        e s.valid.counted in
    let there =
      found_All (λ q. is_purging_s3 q.state ≡ false → C q.hash_sha256 (w.s3 q.storage_key))
        l.chunk_hash r pool e s.stored in
    let some_refs = ap (λ h. refs h w.db.snapshot_chunks) same in
    let kept : is_purging_s3 r.state ≡ false = ground (arith, counted, some_refs) in
    let at_row : storage_key_of pool l ≡ r.storage_key = rw e refl in
    let keyed =
      found_All (λ q. q.storage_key ≡ chunk_key q.hash_sha256) l.chunk_hash r pool e s.keyed in
    record {
      key = at_row ∙ keyed ∙ ap chunk_key same;
      content =
          subst (λ k. C l.chunk_hash (w.s3 k)) (sym at_row)
            (subst (λ h. C h (w.s3 r.storage_key)) same (there kept));
    }

-- In a sound state each link finds its content.
pub links-FindContent :
    (C : Content) (w : World) → IsSound C w → All (FindsContent C w) w.db.snapshot_chunks
links-FindContent C w s =
    All-map _ _ w.db.snapshot_chunks (λ l a. known-FindsContent C w l s a.0 a.1)
      (All-zip _ _ w.db.snapshot_chunks s.valid.linked (links-refs w.db.snapshot_chunks))

-- The links of one snapshot.
pub snapshot_links-FindContent :
    (C : Content) (i : String) (w : World)
    → IsSound C w
    → All (FindsContent C w) (select (of_snapshot i) w.db.snapshot_chunks)
snapshot_links-FindContent C i w s =
    All-select_if (FindsContent C w) (of_snapshot i) w.db.snapshot_chunks
      (All-map _ _ w.db.snapshot_chunks (λ l f e. f) (links-FindContent C w s))
