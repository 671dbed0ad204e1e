-- ===== src/Backup/Upload.antt =====
-- The first transaction of an upload of src/boveda/cli.py, on an engine that does not begin
-- transactions itself: what it leaves to the upload and the link.
use text.Mathlib.TextPositions.{eq_refl}
use boveda_pyme.Prelude.{
  ℕ, String, ◌≡◌, refl, ap, ◌∙◌, subst, inl, inr, Bool, true, false, ◌&&◌, none, some, List, [],
  ◌∷◌, ◌++◌, arith, eq_iff, if◌then◌else◌, Bool-cases, Option-cases, first_such, All-map,
  All-append, All-zip, ok,
}
use boveda_pyme.Catalog.{ChunkPool, Db, is_purging_s3, has_hash, update_where}
use boveda_pyme.Catalog.Refs.{refs, RowIsCounted}
use boveda_pyme.Catalog.Valid.{known-update}
use boveda_pyme.Purge.{ObjectStore, World}
use boveda_pyme.Backup.{chunk_key, new_pool, reactivate, prepare}
use boveda_pyme.Backup.Rows.{
  insert_pool_lem, known-append, refs_of_unknown, new_pool-IsValid, reactivate-IsValid,
}
use boveda_pyme.Backup.Sound.{
  IsSound, IsPrepared, none-known, found-only, found-has_hash, found_All, All-update, found-known,
  Content, content_at,
}

abbrev pub PrepareReturns : Content → ℕ → String → List ℕ → World → Type 0
PrepareReturns C now h payload w =
    (p : String × Bool × Db) × (prepare false now h payload w.db ≡ ok p)
    × IsPrepared C h w.db w.s3 p

prepare_new :
    (C : Content) (now : ℕ) (h : String) (payload : List ℕ) (w : World)
    → IsSound C w
    → first_such (has_hash h) w.db.chunk_pool ≡ none
    → PrepareReturns C now h payload w
unfolding prepare
prepare_new C now h payload w s e =
    let unknown = none-known h w.db.chunk_pool e in
    let row = new_pool now h payload in
    (
      (chunk_key h, true, record (w.db) { chunk_pool = w.db.chunk_pool ++ row ∷ [] }),
      rw (e, insert_pool_lem now h payload w.db s.keyed unknown) refl,
      record {
        key = refl;
        valid = new_pool-IsValid now h payload w.db s.valid unknown;
        keyed = All-append _ w.db.chunk_pool (row ∷ []) s.keyed (unfold new_pool in refl, tt);
        stored =
            All-append _ w.db.chunk_pool (row ∷ [])
              (All-map _ _ w.db.chunk_pool (λ r k a b. k a) s.stored)
              (unfold new_pool in (λ a b. absurd (ground (arith, eq_refl h))), tt);
        present = λ a. absurd (cc);
        unlinked =
            λ _. refs_of_unknown h w.db.chunk_pool w.db.snapshot_chunks s.valid.linked unknown;
        has_row = known-append h w.db.chunk_pool row ∙ unfold new_pool in ground (arith, eq_refl h);
        same_links = refl;
        same_snapshots = refl;
      },
    )

-- A row that reactivation leaves out of the purge had its object, unless it is to be uploaded.
reactivated :
    (C : Content) (h : String) (s3 : ObjectStore) (q r : ChunkPool)
    → (is_purging_s3 q.state ≡ false → C q.hash_sha256 (s3 q.storage_key))
    → (has_hash h q ≡ true → q ≡ r)
    → (is_purging_s3 r.state && has_hash h (if has_hash h q then reactivate q else q)) ≡ false
    → is_purging_s3 (if has_hash h q then reactivate q else q).state ≡ false
    → C
        (if has_hash h q then reactivate q else q).hash_sha256
        (s3 (if has_hash h q then reactivate q else q).storage_key)
unfolding reactivate
reactivated C h s3 q r k only b a = elim (Bool-cases (has_hash h q)) [
  | inl is ↦
      let e = ap (λ x. x.state) (only is) in
      content_at C s3 (if has_hash h q then reactivate q else q) (ground arith) (ground arith)
        (k (ground arith))
  | inr not_is ↦
      content_at C s3 (if has_hash h q then reactivate q else q) (ground arith) (ground arith)
        (k (ground arith))
]

prepare_found :
    (C : Content) (now : ℕ) (h : String) (payload : List ℕ) (w : World) (r : ChunkPool)
    → IsSound C w
    → first_such (has_hash h) w.db.chunk_pool ≡ some r
    → PrepareReturns C now h payload w
unfolding prepare reactivate
prepare_found C now h payload w r s e =
    let pool = w.db.chunk_pool in
    let key = found_All (λ q. q.storage_key ≡ chunk_key q.hash_sha256) h r pool e s.keyed in
    let its_hash = (eq_iff r.hash_sha256 h).0 (found-has_hash h r pool e) in
    let its_key = key ∙ ap chunk_key its_hash in
    let counted =
      found_All (λ q. RowIsCounted (refs q.hash_sha256 w.db.snapshot_chunks) q) h r pool e
        s.valid.counted in
    let only = found-only h r pool s.valid.distinct e in
    let there =
      found_All (λ q. is_purging_s3 q.state ≡ false → C q.hash_sha256 (w.s3 q.storage_key)) h r pool
        e s.stored in
    (
      (
        r.storage_key,
        is_purging_s3 r.state,
        record (w.db) { chunk_pool = update_where (has_hash h) reactivate pool },
      ),
      rw e refl,
      record {
        key = its_key;
        valid = reactivate-IsValid h w.db s.valid;
        keyed =
            All-update _ (has_hash h) reactivate pool
              (All-map _ _ pool (λ q k. ground arith) s.keyed);
        stored = All-update _ (has_hash h) reactivate pool (
            All-map _ _ pool (λ q k a b. reactivated C h w.s3 q r k.0 k.1 b a)
              (All-zip _ _ pool s.stored only));
        present = λ a.
            subst (λ k. C h (w.s3 k)) its_key
              (subst (λ x. C x (w.s3 r.storage_key)) its_hash (there a));
        unlinked = λ a. ground (arith, counted, ap (λ x. refs x w.db.snapshot_chunks) its_hash);
        has_row =
            known-update (has_hash h) reactivate h pool (λ q. ground arith)
            ∙ found-known h r pool e;
        same_links = refl;
        same_snapshots = refl;
      },
    )

-- Under a sound state the first transaction always returns.
pub prepare_lem :
    (C : Content) (now : ℕ) (h : String) (payload : List ℕ) (w : World)
    → IsSound C w
    → PrepareReturns C now h payload w
prepare_lem C now h payload w s = elim (Option-cases (first_such (has_hash h) w.db.chunk_pool)) [
  | inl new ↦ prepare_new C now h payload w s new
  | inr (r, found) ↦ prepare_found C now h payload w r s found
]
