-- ===== src/Cli/Verify.antt =====
-- `verify` of src/boveda/cli.py, and what it answers. SHA-256 is a parameter.
use boveda_pyme.Prelude.{
  ℕ, ◌+◌, String, ◌≡◌, refl, sym, ap, ◌∙◌, ◌↔◌, Bool, true, false, not, ◌&&◌, Option, none, some,
  List, [], ◌∷◌, arith, str_eq, eq_iff, ◌==◌, if◌then◌else◌, length, select, All, All-map,
}
use boveda_pyme.Catalog.{Snapshot, SnapshotChunk, ChunkPool, of_snapshot}
use boveda_pyme.Purge.{ObjectStore}
use boveda_pyme.Cli.{
  Catalogue, Echo, no_mode, no_snapshot, no_chunks, no_bucket, verified, corrupt, is_missing,
  completed_snapshot, storage_key_of, chunk_entry, entry_size,
}

-- HEAD: the length of the object is that of the entry and the header.
unfoldable pub check_quick : ObjectStore → List ChunkPool → SnapshotChunk → Bool
check_quick s3 pool l = elim (s3 (storage_key_of pool l)) [
  | none ↦ false
  | some body ↦ length body == entry_size (chunk_entry pool l) + 26
]

-- GET: the hash of the object.
unfoldable pub check_full : (List ℕ → String) → ObjectStore → List ChunkPool → SnapshotChunk → Bool
check_full sha256 s3 pool l = elim (s3 (storage_key_of pool l)) [
  | none ↦ false
  | some body ↦ str_eq (sha256 body) l.chunk_hash
]

unfoldable pub check_all : (SnapshotChunk → Bool) → List SnapshotChunk → Bool
check_all check [] = true
check_all check (l ∷ ls) = let rest = check_all check ls in if check l then rest else false

module _ (sha256 : List ℕ → String) where
  abbrev pub verify_links : Bool → Catalogue → List SnapshotChunk → Echo
  verify_links quick c ls =
      let db = c.world.db in
      let check =
        if quick
        then check_quick c.world.s3 db.chunk_pool
        else check_full sha256 c.world.s3 db.chunk_pool in
      if check_all check ls then verified else corrupt

  abbrev pub verify_some : Bool → Option String → Catalogue → List SnapshotChunk → Echo
  verify_some quick bucket c [] = no_chunks
  verify_some quick bucket c (l ∷ ls) =
      if is_missing bucket then no_bucket else verify_links quick c (l ∷ ls)

  -- `verify`: with both flags, the quick check.
  unfoldable pub verify : Bool → Bool → Option String → String → Catalogue → Echo
  unfolding check_quick check_full check_all
  verify quick full bucket i c =
      if not quick && not full
      then no_mode
      else elim (completed_snapshot i c.world.db) as (λ _. Echo) [
        | none ↦ no_snapshot
        | some s ↦ verify_some quick bucket c (select (of_snapshot i) c.world.db.snapshot_chunks)
      ]

check_all_iff :
    (check : SnapshotChunk → Bool) (ls : List SnapshotChunk)
    → (check_all check ls ≡ true) ↔ All (λ l. check l ≡ true) ls
unfolding check_all
check_all_iff check [] = ((λ e. tt), (λ a. refl))
check_all_iff check (l ∷ ls) = (
  (λ e. (ground arith, (check_all_iff check ls).0 (ground arith))),
  (λ a. let rest = (check_all_iff check ls).1 a.1 in rw (a.0) rest),
)

module _ (sha256 : List ℕ → String) where
  -- The object of a link is in the bucket, and its hash is that of the link.
  abbrev pub IsIntact : ObjectStore → List ChunkPool → SnapshotChunk → Type 0
  IsIntact s3 pool l =
      (body : List ℕ) × (s3 (storage_key_of pool l) ≡ some body) × (sha256 body ≡ l.chunk_hash)

  check_full-some :
      (s3 : ObjectStore) (pool : List ChunkPool) (l : SnapshotChunk) (body : List ℕ)
      → s3 (storage_key_of pool l) ≡ some body
      → check_full sha256 s3 pool l ≡ str_eq (sha256 body) l.chunk_hash
  unfolding check_full
  check_full-some s3 pool l body e = rw (e, check_full) refl

  check_full-none :
      (s3 : ObjectStore) (pool : List ChunkPool) (l : SnapshotChunk)
      → s3 (storage_key_of pool l) ≡ none
      → check_full sha256 s3 pool l ≡ false
  unfolding check_full
  check_full-none s3 pool l e = rw (e, check_full) refl

  to_intact :
      (s3 : ObjectStore) (pool : List ChunkPool) (l : SnapshotChunk) (o : Option (List ℕ))
      → s3 (storage_key_of pool l) ≡ o
      → check_full sha256 s3 pool l ≡ true
      → IsIntact s3 pool l
  to_intact s3 pool l none e h = let none_there = check_full-none s3 pool l e in absurd (cc)
  to_intact s3 pool l (some body) e h =
      (body, e, (eq_iff (sha256 body) l.chunk_hash).0 (sym (check_full-some s3 pool l body e) ∙ h))

  from_intact :
      (s3 : ObjectStore) (pool : List ChunkPool) (l : SnapshotChunk)
      → IsIntact s3 pool l
      → check_full sha256 s3 pool l ≡ true
  from_intact s3 pool l (body, e, h) =
      check_full-some s3 pool l body e ∙ (eq_iff (sha256 body) l.chunk_hash).1 h

  -- Provided that the snapshot is COMPLETED and has links, and that the bucket is named: the full
  -- check says verified exactly if the object of each link is in the bucket with the link's hash.
  pub verify_full_iff :
      (bucket : Option String) (i : String) (c : Catalogue) (s : Snapshot) (l : SnapshotChunk)
      (ls : List SnapshotChunk)
      → is_missing bucket ≡ false
      → completed_snapshot i c.world.db ≡ some s
      → select (of_snapshot i) c.world.db.snapshot_chunks ≡ l ∷ ls
      → (verify sha256 false true bucket i c ≡ verified)
        ↔ All (IsIntact c.world.s3 c.world.db.chunk_pool) (l ∷ ls)
  unfolding verify
  verify_full_iff bucket i c s l ls m k e =
      let check = check_full sha256 c.world.s3 c.world.db.chunk_pool in
      let all = check_all_iff check (l ∷ ls) in
      let answer : verify sha256 false true bucket i c
          ≡ (if check_all check (l ∷ ls) then verified else corrupt) =
        rw (k, e, m) refl in
      (
        (λ v.
            All-map (λ q. check q ≡ true) (IsIntact c.world.s3 c.world.db.chunk_pool) (l ∷ ls)
              (λ q h.
                to_intact c.world.s3 c.world.db.chunk_pool q
                  (c.world.s3 (storage_key_of c.world.db.chunk_pool q)) refl h)
              (all.0 (said (check_all check (l ∷ ls)) (sym answer ∙ v)))),
        (λ a.
            answer
            ∙ ap (λ b. if b then verified else corrupt)
                (all.1 (
                  All-map (IsIntact c.world.s3 c.world.db.chunk_pool) (λ q. check q ≡ true) (l ∷ ls)
                    (λ q h. from_intact c.world.s3 c.world.db.chunk_pool q h) a))),
      )
    where
      said : (b : Bool) → (if b then verified else corrupt) ≡ verified → b ≡ true
      said true h = refl
      said false h = cc
