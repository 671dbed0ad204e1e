-- ===== src/Catalog/Statements.antt =====
-- Each statement of src/boveda/database.py's catalogue keeps it valid.
use boveda_pyme.Prelude.{
  true, ℕ, ◌+◌, String, ◌≡◌, refl, sym, ◌∙◌, subst, ◌≢◌, inl, inr, Bool, not, List, [], ◌∷◌, ◌++◌,
  arith, eq_iff, if◌then◌else◌, Bool-cases, select, All, All-map, All-append, raise_if-eq-ok,
  ok-injective, ok,
}
use boveda_pyme.Catalog.{
  with_link, is_taken, lacks_owner, lacks_row, is_protected, ChunkPool, Snapshot, SnapshotChunk, Db,
  has_hash, has_id, of_snapshot, update_where, on_link, on_unlink, after_delete, insert_link,
  unlink_where, delete_links, delete_snapshot, update_snapshot, abort, integrity,
}
use boveda_pyme.Catalog.Refs.{
  PoolIsCounted, refs, refs-append, after_insert-PoolIsCounted, unlink_where-PoolIsCounted,
  PoolIsCounted-cong,
}
use boveda_pyme.Catalog.Valid.{
  IsValid, KeepsHash, known, Distinct, Owned, known-update, update-Distinct, has_snapshot,
  update-Linked,
}

on_link-KeepsHash : (now : ℕ) → KeepsHash (on_link now)
unfolding on_link
on_link-KeepsHash now r = refl

on_unlink-KeepsHash : (now : ℕ) → KeepsHash (on_unlink now)
unfolding on_unlink
on_unlink-KeepsHash now r = refl

-- Unlinking keeps every hash that was known.
unlink_where-known :
    (now : ℕ) (p : SnapshotChunk → Bool) (h : String) (ls : List SnapshotChunk)
    (pool : List ChunkPool)
    → known h (unlink_where now p ls pool).1 ≡ known h pool
unfolding unlink_where
unlink_where-known now p h [] pool = refl
unlink_where-known now p h (l ∷ ls) pool = elim (Bool-cases (p l)) [
  | inl e ↦ rw e (
      unlink_where-known now p h ls (after_delete now l.chunk_hash pool)
      ∙ known-update (has_hash l.chunk_hash) (on_unlink now) h pool (on_unlink-KeepsHash now))
  | inr e ↦ rw e (unlink_where-known now p h ls pool)
]

unlink_where-Distinct :
    (now : ℕ) (p : SnapshotChunk → Bool) (ls : List SnapshotChunk) (pool : List ChunkPool)
    → Distinct pool
    → Distinct (unlink_where now p ls pool).1
unfolding unlink_where
unlink_where-Distinct now p [] pool d = d
unlink_where-Distinct now p (l ∷ ls) pool d = elim (Bool-cases (p l)) [
  | inl e ↦ rw e (
      unlink_where-Distinct now p ls (after_delete now l.chunk_hash pool)
        (update-Distinct (has_hash l.chunk_hash) (on_unlink now) pool (on_unlink-KeepsHash now) d))
  | inr e ↦ rw e (unlink_where-Distinct now p ls pool d)
]

-- The links that are kept are those that the condition spares, in order.
pub unlink_where-kept :
    (now : ℕ) (p : SnapshotChunk → Bool) (ls : List SnapshotChunk) (pool : List ChunkPool)
    → (unlink_where now p ls pool).0 ≡ select (λ l. not (p l)) ls
unfolding unlink_where
unlink_where-kept now p [] pool = refl
unlink_where-kept now p (l ∷ ls) pool =
    ground
      (arith, unlink_where-kept now p ls (if p l then after_delete now l.chunk_hash pool else pool))

pub All-kept {κ} :
    (P : SnapshotChunk → Type κ) (now : ℕ) (p : SnapshotChunk → Bool) (ls : List SnapshotChunk)
    (pool : List ChunkPool)
    → All P ls
    → All P (unlink_where now p ls pool).0
unfolding unlink_where
All-kept P now p [] pool a = tt
All-kept P now p (l ∷ ls) pool a =
    ground (
      arith,
      a.0,
      All-kept P now p ls (if p l then after_delete now l.chunk_hash pool else pool) a.1,
    )

unlink_where-counted :
    (now : ℕ) (p : SnapshotChunk → Bool) (db : Db)
    → IsValid db
    → let (kept, pool) = unlink_where now p db.snapshot_chunks db.chunk_pool in
      PoolIsCounted (λ h. refs h kept) pool
unlink_where-counted now p db v =
    PoolIsCounted-cong (λ h. 0 + refs h (unlink_where now p db.snapshot_chunks db.chunk_pool).0) _ _
      (λ h. omega arith)
      (unlink_where-PoolIsCounted now p (λ h. 0) db.snapshot_chunks db.chunk_pool
        (PoolIsCounted-cong _ _ db.chunk_pool (λ h. omega arith) v.counted))

-- Deleting the links of a snapshot leaves the catalogue valid.
pub delete_links-IsValid :
    (now : ℕ) (i : String) (db : Db) → IsValid db → IsValid (delete_links now i db)
unfolding delete_links
delete_links-IsValid now i db v =
    let p = of_snapshot i in
    let links = db.snapshot_chunks in
    let pool = db.chunk_pool in
    record {
      counted = unlink_where-counted now p db v;
      distinct = unlink_where-Distinct now p links pool v.distinct;
      linked =
          All-map _ _ (unlink_where now p links pool).0
            (λ l e. unlink_where-known now p l.chunk_hash links pool ∙ e)
            (All-kept (λ l. known l.chunk_hash pool ≡ true) now p links pool v.linked);
      owned =
          All-kept (λ l. has_snapshot l.snapshot_id db.snapshots ≡ true) now p links pool v.owned;
    }

-- No link of a deleted snapshot is kept, so what owns the others stays.
kept-Owned :
    (i : String) (ss : List Snapshot) (ls : List SnapshotChunk)
    → Owned ss ls
    → Owned (select (λ s. not (has_id i s)) ss) (select (λ l. not (of_snapshot i l)) ls)
kept-Owned i ss [] o = tt
kept-Owned i ss (l ∷ ls) o =
    ground (arith, o.0, kept-Owned i ss ls o.1, eq_iff l.snapshot_id i, stays ss l.snapshot_id)
  where
    stays :
        (ss : List Snapshot) (j : String)
        → j ≢ i
        → has_snapshot j (select (λ s. not (has_id i s)) ss) ≡ has_snapshot j ss
    stays [] j ne = refl
    stays (s ∷ ss) j ne = ground (arith, eq_iff s.id i, eq_iff s.id j, stays ss j ne)

-- A deletion of a snapshot with its links that the triggers admit leaves a valid catalogue
-- valid.
pub delete_snapshot-IsValid :
    (now : ℕ) (i : String) (db : Db) {db' : Db}
    → IsValid db
    → delete_snapshot now i db ≡ ok db'
    → IsValid db'
unfolding delete_snapshot delete_links
delete_snapshot-IsValid now i db v e =
    let w = delete_links-IsValid now i db v in
    let (_, e') = raise_if-eq-ok (is_protected i db) abort _ e in
    subst IsValid (ok-injective e') record {
      counted = w.counted;
      distinct = w.distinct;
      linked = w.linked;
      owned =
          rw (unlink_where-kept now (of_snapshot i) db.snapshot_chunks db.chunk_pool)
            (kept-Owned i db.snapshots db.snapshot_chunks v.owned);
    }

-- An update of snapshots by primary key, which keeps the key.
pub update_snapshot-IsValid :
    (i : String) (f : Snapshot → Snapshot) (db : Db)
    → ((s : Snapshot) → (f s).id ≡ s.id)
    → IsValid db
    → IsValid (update_snapshot i f db)
unfolding update_snapshot
update_snapshot-IsValid i f db k v = record {
  counted = v.counted;
  distinct = v.distinct;
  linked = v.linked;
  owned = All-map _ _ db.snapshot_chunks (λ l e. same db.snapshots l.snapshot_id ∙ e) v.owned;
}
  where
    same :
        (ss : List Snapshot) (j : String)
        → has_snapshot j (update_where (has_id i) f ss) ≡ has_snapshot j ss
    same [] j = refl
    same (s ∷ ss) j = ground (arith, k s, same ss j)

-- A link that the constraints admit leaves the catalogue valid.
pub insert_link-IsValid :
    (now : ℕ) (l : SnapshotChunk) (db : Db) {db' : Db}
    → IsValid db
    → insert_link now l db ≡ ok db'
    → IsValid db'
unfolding insert_link
insert_link-IsValid now l db v e =
    let (_, e₁) = raise_if-eq-ok (is_taken l db) integrity _ e in
    let (owner, e₂) = raise_if-eq-ok (lacks_owner l db) integrity _ e₁ in
    let (row, e₃) = raise_if-eq-ok (lacks_row l db) integrity _ e₂ in
    let keeps = on_link-KeepsHash now in
    let p = has_hash l.chunk_hash in
    let links = db.snapshot_chunks in
    let pool = db.chunk_pool in
    subst IsValid (ok-injective e₃) record {
      counted =
          PoolIsCounted-cong _ _ (update_where p (on_link now) pool)
            (λ h. sym (refs-append h links (l ∷ [])))
            (after_insert-PoolIsCounted now l (λ h. refs h links) pool v.counted);
      distinct = update-Distinct p (on_link now) pool keeps v.distinct;
      linked =
          update-Linked p (on_link now) pool (links ++ l ∷ []) keeps
            (All-append _ links (l ∷ []) v.linked (ground arith, tt));
      owned = All-append _ links (l ∷ []) v.owned (ground arith, tt);
    }

-- A link that is admitted is added at the end, and its row is counted up.
pub insert_link-eq-ok :
    (now : ℕ) (l : SnapshotChunk) (db : Db) {db' : Db}
    → insert_link now l db ≡ ok db'
    → with_link now l db ≡ db'
unfolding insert_link
insert_link-eq-ok now l db e =
    let (_, e₁) = raise_if-eq-ok (is_taken l db) integrity _ e in
    let (_, e₂) = raise_if-eq-ok (lacks_owner l db) integrity _ e₁ in
    let (_, e₃) = raise_if-eq-ok (lacks_row l db) integrity _ e₂ in ok-injective e₃
