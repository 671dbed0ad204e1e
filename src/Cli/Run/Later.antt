-- ===== src/Cli/Run/Later.antt =====
-- Sequences of backups of src/boveda/cli.py, seen from a snapshot that they do not make.
use boveda_pyme.Prelude.{ℕ, String, Bool, ◌≡◌, ◌≢◌, true, false, Option, List}
use boveda_pyme.Header.{NonceGenerator}
use boveda_pyme.Purge.{World, DeleteObjects}
use boveda_pyme.Pipeline.{Encrypt}
use boveda_pyme.Backup.{PutObject}
use boveda_pyme.Backup.Sound.{Anything, IsSound}
use boveda_pyme.Backup.Purging.{DeletesOnly}
use boveda_pyme.Backup.Run.Spared.{PutsOneKey, Spares, Spares-refl, Spares-trans, is_due}
use boveda_pyme.Restore.{Decrypt}
use boveda_pyme.Cli.{Catalogue, backup, restore}
use boveda_pyme.Cli.Verify.{verify}
use boveda_pyme.Cli.Run.{run_pipeline}
use boveda_pyme.Cli.Run.Spared.{backup-Spares}
use boveda_pyme.Cli.Run.Reads.{restore_spared, verify_spared}

module _ (derive_kek : String → String → List ℕ) (compress : List ℕ → List ℕ) (encrypt : Encrypt)
    (decrypt : Decrypt) (sha256 : List ℕ → String) (utf8 : String → List ℕ) where
  -- The worlds that backups under other ids than `j` lead to, each with its own bucket calls, which
  -- may raise at any point, and an engine that begins transactions itself or does not.
  pub data Later (c : Catalogue) (j : String) : World → Type 0 where
    here : Later c j c.world
    then_backup :
        {w : World}
        → Later c j w
        → (begins : Bool) (put_object : PutObject) (delete_objects : DeleteObjects)
          (passphrase bucket : Option String) (now : ℕ) (exc i tipo source : String)
          (dek_raw dek_nonce : List ℕ) (gen : NonceGenerator) (chunks : List (List ℕ))
        → PutsOneKey put_object
        → DeletesOnly delete_objects
        → i ≢ j
        → Later c j
            (backup derive_kek encrypt decrypt sha256 utf8
              (run_pipeline compress encrypt sha256 utf8 begins put_object now exc i dek_raw gen
                chunks)
              delete_objects
              passphrase
              bucket
              now
              exc
              i
              tipo
              source
              dek_raw
              dek_nonce
              (record c { world = w })).1

  Later-Spares :
      (c : Catalogue) (j : String) {w : World}
      → is_due j c.world.db ≡ false
      → IsSound Anything c.world
      → Later c j w
      → Spares j c.world w
  Later-Spares c j d s here = Spares-refl j c.world s
  Later-Spares c j d s
        (then_backup {w} before begins put_object delete_objects passphrase bucket now exc i tipo
          source dek_raw dek_nonce gen chunks p f ne) =
      let so_far = Later-Spares c j d s before in
      Spares-trans j c.world w _ so_far (
        backup-Spares derive_kek compress encrypt decrypt sha256 utf8 begins put_object
          delete_objects passphrase bucket j now exc i tipo source dek_raw dek_nonce gen chunks
          (record c { world = w }) p f ne (so_far.not_due d) so_far.sound)

  -- In a valid catalogue, for a snapshot that is not expired, after any number of later backups under
  -- other ids, on any engine: provided that an upload touches one key and a deletion none that it was not given,
  -- however they end, the full check and the restore of the snapshot come out as before.
  pub Later-keeps :
      (c : Catalogue) (j : String) {w : World} (bucket : Option String) (passphrase : String)
      → is_due j c.world.db ≡ false
      → IsSound Anything c.world
      → Later c j w
      → (verify sha256 false true bucket j (record c { world = w })
          ≡ verify sha256 false true bucket j c)
        × (restore derive_kek encrypt decrypt sha256 utf8 passphrase j (record c { world = w })
            ≡ restore derive_kek encrypt decrypt sha256 utf8 passphrase j c)
  Later-keeps c j {w} bucket passphrase d s later =
      let kept = Later-Spares c j d s later in
      (
        verify_spared sha256 bucket j c w s kept,
        restore_spared derive_kek encrypt decrypt sha256 utf8 passphrase j c w s kept,
      )
