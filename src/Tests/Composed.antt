-- ===== src/Tests/Composed.antt =====
-- Witnesses for a backup with its check and its restore.
use boveda_pyme.Prelude.{some, true, false, ℕ, String, ◌≡◌, refl, List, [], ◌∷◌, arith, eq_iff}
use boveda_pyme.Catalog.{Db, expired, completed, active}
use boveda_pyme.Catalog.Valid.{IsValid}
use boveda_pyme.Purge.{World}
use boveda_pyme.Engines.{EngineCache, get_engine}
use boveda_pyme.Backup.{chunk_key}
use boveda_pyme.Backup.Sound.{IsSound, Anything, HasHash}
use boveda_pyme.Backup.Purging.{IsBacked}
use boveda_pyme.Retention.{purge_expired_snapshots}
use boveda_pyme.Retention.Backed.{purge_expired_snapshots-IsBacked}
use boveda_pyme.Cli.{Catalogue, backup, restore, backup_done, restored, no_chunks}
use boveda_pyme.Cli.Verify.{verify}
use boveda_pyme.Cli.Run.{run_pipeline}
use boveda_pyme.Cli.Run.Later.{Later-keeps, here, then_backup}
use boveda_pyme.Cli.Run.Unlinked.{backup_unlinked}
use boveda_pyme.Tests.Samples.{
  sample_snapshot, sample_row, sample_link, put_sample, put_failing, delete_sample, delete_raising,
  delete_sample-DeletesOnly, delete_raising-DeletesOnly, plain_encrypt, plain_decrypt,
  sample_generator,
}

-- A hash of one text.
abbrev one_hash : List ℕ → String
one_hash raw = "aaab"

-- An expired snapshot whose chunk is in the bucket under its hash.
abbrev addressed_db : Db
addressed_db = record {
  snapshots = sample_snapshot "s2" expired ∷ [];
  chunk_pool = sample_row "aaab" "chunks/aaab.bin" 1 active ∷ [];
  snapshot_chunks = sample_link "s2" 0 "aaab" ∷ [];
}

abbrev addressed : World
addressed = record { db = addressed_db; s3 = λ k. some (3 ∷ []) }

addressed-IsValid : IsValid addressed_db
addressed-IsValid = ground arith

addressed-IsBacked : IsBacked (HasHash one_hash) addressed
unfolding chunk_key
addressed-IsBacked = record {
  valid = addressed-IsValid;
  keyed = (refl, tt);
  referenced = (λ e. (3 ∷ [], refl, refl), tt);
}

-- The deletion of the orphan removes its object and raises.
purge_expired_snapshots-IsBacked_example :
    IsBacked (HasHash one_hash) (purge_expired_snapshots delete_raising 9 "timeout" addressed)
purge_expired_snapshots-IsBacked_example =
    purge_expired_snapshots-IsBacked (HasHash one_hash) delete_raising 9 "timeout" addressed
      delete_raising-DeletesOnly addressed-IsBacked

abbrev addressed_catalogue : Catalogue
addressed_catalogue = record {
  world = addressed;
  configuracion = record { clave = "master_salt"; valor = "c2FsdA=="; es_secreto = false } ∷ [];
}

abbrev completed_catalogue : Catalogue
completed_catalogue = record addressed_catalogue {
  world = record addressed {
    db = record addressed_db { snapshots = sample_snapshot "s2" completed ∷ [] };
  };
}

completed-IsSound : IsSound Anything completed_catalogue.world
unfolding chunk_key
completed-IsSound = record { valid = ground arith; keyed = (refl, tt); stored = (λ e. tt, tt) }

-- No engine was made before.
abbrev no_engines : EngineCache
no_engines = record { engines = []; created = 0 }

backup_unlinked_example :
    let (engine, _) = get_engine (λ p. p) "snapshots.db" no_engines in
    let (e, w) =
      backup
        (λ p s. 7 ∷ [])
        plain_encrypt
        plain_decrypt
        one_hash
        (λ i. [])
        (run_pipeline
          (λ c. c)
          plain_encrypt
          one_hash
          (λ i. [])
          engine.begins
          put_sample
          9
          "timeout"
          "s3"
          (9 ∷ 8 ∷ [])
          sample_generator
          ((5 ∷ 6 ∷ []) ∷ []))
        delete_sample
        (some "secret")
        (some "bucket")
        9
        "timeout"
        "s3"
        "DIARIO"
        "db-prod"
        (9 ∷ 8 ∷ [])
        (1 ∷ [])
        addressed_catalogue in
    (e ≡ backup_done "s3")
    × (verify one_hash false true (some "bucket") "s3" (record addressed_catalogue { world = w })
        ≡ no_chunks)
    × (restore
          (λ p s. 7 ∷ [])
          plain_encrypt
          plain_decrypt
          one_hash
          (λ i. [])
          "secret"
          "s3"
          (record addressed_catalogue { world = w })
        ≡ (restored, []))
backup_unlinked_example =
    backup_unlinked (λ p s. 7 ∷ []) (λ c. c) plain_encrypt plain_decrypt one_hash (λ i. [])
      (λ k n p a. refl) (λ p. p) "snapshots.db" no_engines put_sample delete_sample "secret"
      "bucket" 9 "timeout" "s3" "DIARIO" "db-prod" (9 ∷ 8 ∷ []) (1 ∷ []) sample_generator
      (5 ∷ 6 ∷ []) [] addressed_catalogue
      (record { clave = "master_salt"; valor = "c2FsdA=="; es_secreto = false }) tt
      addressed-IsValid refl refl refl refl
      (record {
        sequence = omega arith;
        nonces = omega arith;
        prefix = refl;
        lengths = (omega arith, tt);
      })

-- A later backup whose uploads raise.
Later-keeps_example :
    let w =
      (backup
        (λ p s. 7 ∷ [])
        plain_encrypt
        plain_decrypt
        one_hash
        (λ i. [])
        (run_pipeline
          (λ c. c)
          plain_encrypt
          one_hash
          (λ i. [])
          true
          put_failing
          9
          "timeout"
          "s3"
          (9 ∷ 8 ∷ [])
          sample_generator
          ((5 ∷ 6 ∷ []) ∷ []))
        delete_sample
        (some "secret")
        (some "bucket")
        9
        "timeout"
        "s3"
        "DIARIO"
        "db-prod"
        (9 ∷ 8 ∷ [])
        (1 ∷ [])
        completed_catalogue).1 in
    (verify one_hash false true (some "bucket") "s2" (record completed_catalogue { world = w })
      ≡ verify one_hash false true (some "bucket") "s2" completed_catalogue)
    × (restore
          (λ p s. 7 ∷ [])
          plain_encrypt
          plain_decrypt
          one_hash
          (λ i. [])
          "secret"
          "s2"
          (record completed_catalogue { world = w })
        ≡ restore
            (λ p s. 7 ∷ [])
            plain_encrypt
            plain_decrypt
            one_hash
            (λ i. [])
            "secret"
            "s2"
            completed_catalogue)
Later-keeps_example =
    Later-keeps (λ p s. 7 ∷ []) (λ c. c) plain_encrypt plain_decrypt one_hash (λ i. [])
      completed_catalogue "s2" (some "bucket") "secret" refl completed-IsSound
      (then_backup here true put_failing delete_sample (some "secret") (some "bucket") 9 "timeout"
        "s3" "DIARIO" "db-prod" (9 ∷ 8 ∷ []) (1 ∷ []) sample_generator ((5 ∷ 6 ∷ []) ∷ [])
        (λ k j p s3 ne. refl) delete_sample-DeletesOnly (λ e. ground (arith, eq_iff "s3" "s2")))
