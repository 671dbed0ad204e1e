-- ===== src/Cli/Run/Spared.antt =====
-- What later backups of src/boveda/cli.py leave alone, however their uploads and deletions end.
use boveda_pyme.Prelude.{
  ℕ, String, ◌≡◌, ◌≢◌, refl, false, ◌&&◌, ◌||◌, Bool, Option, none, some, List, [], ◌∷◌, ◌++◌,
  arith, eq_iff, some_of, first_such, All-intro, Bool-cases, Option-cases, inl, inr, Result, ok,
  err,
}
use boveda_pyme.Catalog.{Snapshot, has_id, is_expired, update_where, update_snapshot}
use boveda_pyme.Catalog.Statements.{update_snapshot-IsValid}
use boveda_pyme.Header.{NonceGenerator}
use boveda_pyme.Purge.{World, DeleteObjects}
use boveda_pyme.Pipeline.{Encrypt, compress_encrypt_upload}
use boveda_pyme.Backup.{PutObject}
use boveda_pyme.Backup.Sound.{Anything, IsSound}
use boveda_pyme.Backup.Purging.{DeletesOnly}
use boveda_pyme.Backup.Run.Spared.{
  PutsOneKey, Spares, Spares-refl, Spares-trans, is_due, links_of, upload_all-Spares,
}
use boveda_pyme.Restore.{Decrypt}
use boveda_pyme.Retention.{purge_expired_snapshots}
use boveda_pyme.Retention.Spared.{purge_expired_snapshots-Spares}
use boveda_pyme.Cli.{
  Catalogue, backup, is_missing, setting_of, row_of, insert_snapshot, run_backup, after_pipeline,
  set_completed, set_failed,
}
use boveda_pyme.Cli.Finish.{with_row}
use boveda_pyme.Cli.Run.{run_pipeline}
use boveda_pyme.Cli.Run.Backed.{with_row-IsSound}

with_row-Spares :
    (j : String) (s : Snapshot) (w : World)
    → s.id ≢ j
    → is_expired s.estado ≡ false
    → IsSound Anything w
    → Spares j w (with_row s w)
with_row-Spares j s w ne x sound = record {
  sound = with_row-IsSound Anything s w sound;
  row = same_row w.db.snapshots;
  not_due = same_due w.db.snapshots;
  links = refl;
  objects = All-intro _ (links_of j w.db) (λ l. refl);
}
  where
    same_row :
        (ss : List Snapshot) → first_such (has_id j) (ss ++ s ∷ []) ≡ first_such (has_id j) ss
    same_row [] = ground (arith, eq_iff s.id j)
    same_row (q ∷ ss) = ground (arith, same_row ss)

    same_due :
        (ss : List Snapshot)
        → some_of (λ q. has_id j q && is_expired q.estado) ss ≡ false
        → some_of (λ q. has_id j q && is_expired q.estado) (ss ++ s ∷ []) ≡ false
    same_due [] e = ground (arith, eq_iff s.id j)
    same_due (q ∷ ss) e = ground (arith, same_due ss)

update_snapshot-Spares :
    (f : Snapshot → Snapshot) (j i : String) (w : World)
    → ((s : Snapshot) → (f s).id ≡ s.id)
    → i ≢ j
    → IsSound Anything w
    → Spares j w (record w { db = update_snapshot i f w.db })
unfolding update_snapshot
update_snapshot-Spares f j i w k ne s = record {
  sound = record {
    valid = update_snapshot-IsValid i f w.db k s.valid;
    keyed = s.keyed;
    stored = s.stored;
  };
  row = same_row w.db.snapshots;
  not_due = same_due w.db.snapshots;
  links = refl;
  objects = All-intro _ (links_of j w.db) (λ l. refl);
}
  where
    same_row :
        (ss : List Snapshot)
        → first_such (has_id j) (update_where (has_id i) f ss) ≡ first_such (has_id j) ss
    same_row [] = refl
    same_row (q ∷ ss) = ground (arith, k q, eq_iff q.id i, eq_iff q.id j, same_row ss)

    same_due :
        (ss : List Snapshot)
        → some_of (λ q. has_id j q && is_expired q.estado) ss ≡ false
        → some_of (λ q. has_id j q && is_expired q.estado) (update_where (has_id i) f ss) ≡ false
    same_due [] e = refl
    same_due (q ∷ ss) e = ground (arith, k q, eq_iff q.id i, eq_iff q.id j, same_due ss)

after_pipeline-Spares :
    (j i : String) (now : ℕ) (r : Result String (Unit {0})) (w : World)
    → i ≢ j
    → IsSound Anything w
    → Spares j w (after_pipeline now i (r, w)).1
unfolding after_pipeline
after_pipeline-Spares j i now (ok _) w ne s =
    update_snapshot-Spares (set_completed now) j i w (λ q. refl) ne s
after_pipeline-Spares j i now (err x) w ne s =
    update_snapshot-Spares (set_failed x) j i w (λ q. refl) ne s

-- Inserting a row, the pipeline, and what follows it.
run_backup-Spares :
    (derive_kek : String → String → List ℕ) (encrypt : Encrypt) (decrypt : Decrypt)
    (sha256 : List ℕ → String) (utf8 : String → List ℕ)
    (pipeline : World → Result String (Unit {0}) × World) (delete_objects : DeleteObjects)
    (j : String) (now : ℕ) (exc i : String) (s : Snapshot) (w : World)
    → ((v : World) → IsSound Anything v → Spares j v (pipeline v).1)
    → DeletesOnly delete_objects
    → s.id ≢ j
    → i ≢ j
    → is_expired s.estado ≡ false
    → is_due j w.db ≡ false
    → IsSound Anything w
    → Spares j w
        (run_backup derive_kek encrypt decrypt sha256 utf8 pipeline delete_objects now exc i w
          (insert_snapshot s w.db)).1
unfolding insert_snapshot
run_backup-Spares derive_kek encrypt decrypt sha256 utf8 pipeline delete_objects j now exc i s w p f
      ne ne' x d sound =
    elim (Bool-cases (some_of (has_id s.id) w.db.snapshots)) [
      | inl taken ↦ rw taken (Spares-refl j w sound)
      | inr new ↦ rw new (
          let v = with_row s w in
          let inserted = with_row-Spares j s w ne x sound in
          let (r, u) = pipeline v in
          let run = p v inserted.sound in
          let marked = (after_pipeline now i (r, u)).1 in
          let ended = after_pipeline-Spares j i now r u ne' run.sound in
          let up_to = Spares-trans j w u marked (Spares-trans j w v u inserted run) ended in
          Spares-trans j w marked (purge_expired_snapshots delete_objects now exc marked) up_to (
            purge_expired_snapshots-Spares delete_objects j now exc marked f (up_to.not_due d)
              up_to.sound))
    ]

module _ (derive_kek : String → String → List ℕ) (compress : List ℕ → List ℕ) (encrypt : Encrypt)
    (decrypt : Decrypt) (sha256 : List ℕ → String) (utf8 : String → List ℕ) where
  -- However a backup under another id ends, a snapshot that is not due is spared.
  pub backup-Spares :
      (begins : Bool) (put_object : PutObject) (delete_objects : DeleteObjects)
      (passphrase bucket : Option String) (j : String) (now : ℕ) (exc i tipo source : String)
      (dek_raw dek_nonce : List ℕ) (gen : NonceGenerator) (chunks : List (List ℕ)) (c : Catalogue)
      → PutsOneKey put_object
      → DeletesOnly delete_objects
      → i ≢ j
      → is_due j c.world.db ≡ false
      → IsSound Anything c.world
      → Spares j c.world
          (backup derive_kek encrypt decrypt sha256 utf8
            (run_pipeline compress encrypt sha256 utf8 begins put_object now exc i dek_raw gen
              chunks)
            delete_objects
            passphrase
            bucket
            now
            exc
            i
            tipo
            source
            dek_raw
            dek_nonce
            c).1
  unfolding backup run_pipeline
  backup-Spares begins put_object delete_objects none bucket j now exc i tipo source dek_raw
        dek_nonce gen chunks c p f ne d s =
      Spares-refl j c.world s
  backup-Spares begins put_object delete_objects (some passphrase) bucket j now exc i tipo source
        dek_raw dek_nonce gen chunks c p f ne d s =
      elim (Bool-cases (is_missing (some passphrase) || is_missing bucket)) [
        | inl missing ↦ rw missing (Spares-refl j c.world s)
        | inr there ↦ elim (Option-cases (setting_of "master_salt" c.configuracion)) [
          | inl no_salt ↦ rw (there, no_salt) (Spares-refl j c.world s)
          | inr (salt, found) ↦
              rw (there, found)
                (run_backup-Spares derive_kek encrypt decrypt sha256 utf8
                  (run_pipeline compress encrypt sha256 utf8 begins put_object now exc i dek_raw gen
                    chunks)
                  delete_objects j now exc i
                  (row_of encrypt utf8 (derive_kek passphrase salt.valor) now i tipo source dek_raw
                    dek_nonce)
                  c.world
                  (λ v sound.
                    upload_all-Spares begins put_object j now i
                      (compress_encrypt_upload compress encrypt sha256 dek_raw (utf8 i) 0 gen
                        chunks).1
                      v p ne sound)
                  f ne ne refl d s)
        ]
      ]
