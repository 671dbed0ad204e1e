-- ===== src/Outbox/Staged.antt =====
-- Store and forward in src/boveda/storage.py: what is not yet in the bucket is still in the staging
-- directory. `key_of` and `path_of` are the storage key and the path that go with a uuid.
use text.Mathlib.TextPositions.{eq_refl}
use boveda_pyme.Prelude.{
  Result, not, if◌then◌else◌, err, ok, All-append, ◌++◌, ℕ, String, ◌≡◌, refl, inl, inr, Bool, true,
  false, ◌||◌, List, [], ◌∷◌, arith, str_eq, eq_iff, Bool-cases, is_some, All, All-map, some_of,
}
use boveda_pyme.Purge.{ObjectStore}
use boveda_pyme.Outbox.{
  OutboxError, enqueue_chunk, write_file, new_chunk, write_failed, integrity, unlink, OutboxChunk,
  Outbox, Staging, is_processed, has_id,
}

module _ (key_of path_of : String → String) where
  abbrev pub IsNamed : OutboxChunk → Type 0
  IsNamed r = (r.storage_key ≡ key_of r.id) × (r.payload_encrypted_path ≡ path_of r.id)

  -- A row has its file or its object, and one that is processed has its object.
  abbrev pub IsKept : Staging → ObjectStore → OutboxChunk → Type 0
  IsKept files s3 r =
      IsNamed r
      × ((is_some (files r.payload_encrypted_path) || is_some (s3 r.storage_key)) ≡ true)
      × (is_processed r.state ≡ true → is_some (s3 r.storage_key) ≡ true)

  abbrev pub IsStaged : Outbox → Type 0
  IsStaged box = All (IsKept box.files box.s3) box.rows

  more_files-IsStaged :
      (files more : Staging) (s3 : ObjectStore) (rows : List OutboxChunk)
      → ((q : String) → is_some (files q) ≡ true → is_some (more q) ≡ true)
      → All (IsKept files s3) rows
      → All (IsKept more s3) rows
  more_files-IsStaged files more s3 rows m a = All-map _ _ rows row a
    where
      row : (r : OutboxChunk) → IsKept files s3 r → IsKept more s3 r
      row r k = elim (Bool-cases (is_some (files r.payload_encrypted_path))) [
        | inl e ↦ let kept = m r.payload_encrypted_path e in (k.0, ground arith, k.2)
        | inr e ↦ let either = k.1 in (k.0, ground arith, k.2)
      ]

  -- An enqueue with the key and the path of its uuid keeps each chunk in the staging directory or
  -- in the bucket, and each row that is PROCESSED has its object, whether it returns or raises.
  pub enqueue_chunk-IsStaged :
      (written : Bool) (now : ℕ) (i tenant : String) (payload : List ℕ) (box : Outbox)
      → IsStaged box
      → IsStaged (enqueue_chunk written now i (path_of i) tenant (key_of i) payload box).1
  unfolding enqueue_chunk
  enqueue_chunk-IsStaged written now i tenant payload box a =
      elim (Bool-cases (is_some (box.files (path_of i)))) [
        | inl there ↦ rw there a
        | inr free ↦ rw free (branches free written (some_of (has_id i) box.rows))
      ]
    where
      staged : Staging
      staged = write_file (path_of i) payload box.files

      undone :
          is_some (box.files (path_of i)) ≡ false
          → All (IsKept (unlink (path_of i) staged) box.s3) box.rows
      undone free =
          more_files-IsStaged box.files (unlink (path_of i) staged) box.s3 box.rows
            (λ q there. elim (Bool-cases (str_eq q (path_of i))) [
              | inl e ↦ let same = (eq_iff q (path_of i)).0 e in absurd (cc)
              | inr e ↦ rw e there
            ])
            a

      added :
          All
            (IsKept staged box.s3)
            (box.rows ++ new_chunk now i tenant (key_of i) (path_of i) ∷ [])
      added =
          All-append _ box.rows _
            (more_files-IsStaged box.files staged box.s3 box.rows (λ q there. ground arith) a)
            (((refl, refl), (let same = eq_refl (path_of i) in ground arith), λ p. absurd (cc)), tt)

      branches :
          is_some (box.files (path_of i)) ≡ false
          → (w taken : Bool)
          → let r : Result OutboxError String × Outbox =
              if not w
              then (err write_failed, record box { files = unlink (path_of i) staged })
              else (if taken
                  then (err integrity, record box { files = unlink (path_of i) staged })
                  else (
                    ok i,
                    record box {
                      rows = box.rows ++ new_chunk now i tenant (key_of i) (path_of i) ∷ [];
                      files = staged;
                    },
                  )) in
            IsStaged r.1
      branches free false taken = undone free
      branches free true true = undone free
      branches free true false = added
