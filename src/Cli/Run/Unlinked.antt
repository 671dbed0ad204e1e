-- ===== src/Cli/Run/Unlinked.antt =====
-- A whole backup of src/boveda/cli.py on an engine of src/boveda/database.py, then `verify` and
-- `restore` of the snapshot that it made. Each upload executes BEGIN IMMEDIATE within the transaction
-- that the engine has begun with BEGIN IMMEDIATE.
use boveda_pyme.Prelude.{
  ℕ, suc, ◌-◌, String, ◌≡◌, refl, ap, ◌∙◌, true, false, not, Option, some, List, [], ◌∷◌, map,
  arith, some_of, length, take-append-drop, first_such, select, ok,
}
use boveda_pyme.Catalog.{has_id, Snapshot, of_snapshot}
use boveda_pyme.Catalog.Valid.{IsValid}
use boveda_pyme.Purge.{World, DeleteObjects}
use boveda_pyme.Header.{NonceGenerator}
use boveda_pyme.Pipeline.{Upload, Encrypt, compress_encrypt_upload}
use boveda_pyme.Pipeline.Sealed.{compress_encrypt_upload-AreSealed}
use boveda_pyme.Backup.{PutObject, chunk_key}
use boveda_pyme.Retention.{expired_ids}
use boveda_pyme.Retention.Expiry.{is_listed}
use boveda_pyme.Engines.{EngineCache, get_engine}
use boveda_pyme.Engines.Begins.{AllBegin, get_engine-begins}
use boveda_pyme.Restore.{Decrypt, sort_by_seq}
use boveda_pyme.Restore.RoundTrip.{
  Fits, restore-compress_encrypt_upload, compress_encrypt_upload-sorted,
}
use boveda_pyme.Cli.{
  Catalogue, Setting, backup_done, no_chunks, restored, is_missing, setting_of, row_of, backup,
  restore, set_completed, bloques_of, bloque_of_link, echo_restore, generate_dek_for_snapshot,
}
use boveda_pyme.Cli.Finish.{with_row, backup_lem, listed_fresh}
use boveda_pyme.Cli.Verify.{verify}
use boveda_pyme.Cli.Run.{run_pipeline}
use boveda_pyme.Cli.Run.Backed.{with_row-IsValid, own_links, own_row}

some_upload :
    (n : ℕ) (us : List Upload)
    → length us ≡ suc n
    → (u : Upload) × (vs : List Upload) × (us ≡ u ∷ vs)
some_upload n [] e = absurd (omega (arith, e))
some_upload n (u ∷ vs) e = (u, vs, refl)

-- What a backup leaves of its snapshot: a COMPLETED row, and no link.
record IsUnlinked (now : ℕ) (i : String) (s : Snapshot) (w : World) : Type 0 where
  row : first_such (has_id i) w.db.snapshots ≡ some (set_completed now s)
  links : select (of_snapshot i) w.db.snapshot_chunks ≡ []

verify_unlinked :
    (sha256 : List ℕ → String) (bucket : Option String) (now : ℕ) (i : String) (s : Snapshot)
    (c : Catalogue) (w : World)
    → IsUnlinked now i s w
    → verify sha256 false true bucket i (record c { world = w }) ≡ no_chunks
unfolding verify
verify_unlinked sha256 bucket now i s c w b = rw (b.row, b.links) refl

module _ (derive_kek : String → String → List ℕ) (compress : List ℕ → List ℕ) (encrypt : Encrypt)
    (decrypt : Decrypt) (sha256 : List ℕ → String) (utf8 : String → List ℕ)
    (decrypt-encrypt : (k n p a : List ℕ) → decrypt k n (encrypt k n p a) a ≡ some p) where
  -- An upload is attempted, and the pipeline returns and leaves the world as it was.
  run_pipeline_unlinked :
      (put_object : PutObject) (now : ℕ) (exc i : String) (dek : List ℕ) (gen : NonceGenerator)
      (chunk : List ℕ) (chunks : List (List ℕ)) (w : World)
      → Fits compress 0 gen (chunk ∷ chunks)
      → run_pipeline compress encrypt sha256 utf8 true put_object now exc i dek gen
          (chunk ∷ chunks)
          w
        ≡ (ok tt, w)
  unfolding run_pipeline
  run_pipeline_unlinked put_object now exc i dek gen chunk chunks w fit =
      let sealed =
        compress_encrypt_upload-AreSealed compress encrypt sha256 dek (utf8 i) 0 gen
          (chunk ∷ chunks) in
      let (returns, _) =
        compress_encrypt_upload-sorted compress encrypt decrypt sha256 utf8 decrypt-encrypt
          chunk_key dek i gen (chunk ∷ chunks) fit in
      let us =
        (compress_encrypt_upload compress encrypt sha256 dek (utf8 i) 0 gen (chunk ∷ chunks)).1 in
      let (u, vs, made) = some_upload (length chunks) us (sealed.all returns) in rw made refl

  -- The restore of a snapshot without links writes nothing, and says that it is restored.
  restore_unlinked :
      (passphrase : String) (now : ℕ) (i tipo source : String) (dek_raw dek_nonce : List ℕ)
      (gen : NonceGenerator) (c : Catalogue) (salt : Setting) (w : World)
      → setting_of "master_salt" c.configuracion ≡ some salt
      → Fits compress 0 gen []
      → IsUnlinked now i
          (row_of encrypt utf8
            (derive_kek passphrase salt.valor)
            now
            i
            tipo
            source
            dek_raw
            dek_nonce)
          w
      → restore derive_kek encrypt decrypt sha256 utf8 passphrase i (record c { world = w })
        ≡ (restored, [])
  unfolding restore bloques_of generate_dek_for_snapshot sort_by_seq compress_encrypt_upload
  restore_unlinked passphrase now i tipo source dek_raw dek_nonce gen c salt w m fit b =
      let kek = derive_kek passphrase salt.valor in
      let s = row_of encrypt utf8 kek now i tipo source dek_raw dek_nonce in
      let ciphertext = encrypt kek dek_nonce dek_raw (utf8 i) in
      let read : bloques_of i w.db ≡ [] =
        ap (λ ls. sort_by_seq (map (bloque_of_link w.db.chunk_pool) ls)) b.links in
      let (_, back) =
        restore-compress_encrypt_upload compress encrypt decrypt sha256 utf8 decrypt-encrypt w.s3
          chunk_key kek dek_raw (set_completed now s) gen [] true refl
          (take-append-drop (length ciphertext - 16) ciphertext) fit tt in
      rw (restore, b.row, m, read) (ap (echo_restore derive_kek encrypt decrypt sha256 utf8) back)

  -- Provided that decryption undoes encryption, that the catalogue is valid, the environment and the
  -- salt are there, the uuid is new, and the counters and lengths fit their fields: with an engine of
  -- get_engine, from any engines that it has made before, a backup of one chunk or more whose
  -- pipeline returns prints that it is done, whatever the bucket does; then the full check of its
  -- snapshot says that it has no chunks, and its restore says that it is restored and writes nothing.
  pub backup_unlinked :
      (abspath : String → String) (db_path : String) (cache : EngineCache) (put_object : PutObject)
      (delete_objects : DeleteObjects) (passphrase bucket : String) (now : ℕ)
      (exc i tipo source : String) (dek_raw dek_nonce : List ℕ) (gen : NonceGenerator)
      (chunk : List ℕ) (chunks : List (List ℕ)) (c : Catalogue) (salt : Setting)
      → AllBegin cache
      → IsValid c.world.db
      → is_missing (some passphrase) ≡ false
      → is_missing (some bucket) ≡ false
      → setting_of "master_salt" c.configuracion ≡ some salt
      → some_of (has_id i) c.world.db.snapshots ≡ false
      → Fits compress 0 gen (chunk ∷ chunks)
      → let (engine, _) = get_engine abspath db_path cache in
        let (e, w) =
          backup derive_kek encrypt decrypt sha256 utf8
            (run_pipeline compress encrypt sha256 utf8 engine.begins put_object now exc i dek_raw
              gen
              (chunk ∷ chunks))
            delete_objects
            (some passphrase)
            (some bucket)
            now
            exc
            i
            tipo
            source
            dek_raw
            dek_nonce
            c in
        (e ≡ backup_done i)
        × (verify sha256 false true (some bucket) i (record c { world = w }) ≡ no_chunks)
        × (restore derive_kek encrypt decrypt sha256 utf8 passphrase i (record c { world = w })
            ≡ (restored, []))
  backup_unlinked abspath db_path cache put_object delete_objects passphrase bucket now exc i tipo
        source dek_raw dek_nonce gen chunk chunks c salt all valid p b m n fit =
      let (begins, _) = get_engine-begins abspath db_path cache all in
      rw begins (
        let s =
          row_of encrypt utf8 (derive_kek passphrase salt.valor) now i tipo source dek_raw
            dek_nonce in
        let ids = expired_ids c.world.db.snapshots in
        let (done, w) =
          backup derive_kek encrypt decrypt sha256 utf8
            (run_pipeline compress encrypt sha256 utf8 true put_object now exc i dek_raw gen
              (chunk ∷ chunks))
            delete_objects (some passphrase) (some bucket) now exc i tipo source dek_raw dek_nonce
            c in
        let (echoed, left) =
          backup_lem derive_kek encrypt decrypt sha256 utf8
            (run_pipeline compress encrypt sha256 utf8 true put_object now exc i dek_raw gen
              (chunk ∷ chunks))
            delete_objects passphrase (some bucket) now exc i tipo source dek_raw dek_nonce c salt s
            (ok tt) (with_row s c.world) p b m n refl
            (run_pipeline_unlinked put_object now exc i dek_raw gen chunk chunks
              (with_row s c.world) fit)
            refl (with_row-IsValid s c.world valid) in
        let unlinked : IsUnlinked now i s w = record {
          row =
              ap (first_such (has_id i)) left.snapshots
              ∙ own_row i (λ q. not (is_listed ids q.id)) (set_completed now s) c.world.db.snapshots
                  refl n;
          links =
              ap (select (of_snapshot i)) left.links
              ∙ own_links i ids c.world.db valid n (listed_fresh i c.world.db.snapshots n);
        } in
        (
          echoed,
          verify_unlinked sha256 (some bucket) now i s c w unlinked,
          restore_unlinked passphrase now i tipo source dek_raw dek_nonce gen c salt w m
              (record {
                sequence = omega (arith, fit.sequence);
                nonces = omega (arith, fit.nonces);
                prefix = fit.prefix;
                lengths = tt;
              })
              unlinked,
        ))
