-- ===== src/Tests/Commands.antt =====
-- Witnesses for the commands.
use mathlib.Core.Option
use boveda_pyme.Prelude.{◌≡◌, refl, true, false, some, [], ◌∷◌, arith, ok, ◌↔◌, All}
use boveda_pyme.Catalog.Valid.{IsValid}
use boveda_pyme.Tests.Runs.{sample_dek, uploading_one}
use boveda_pyme.Catalog.{Snapshot, update_snapshot, completed}
use boveda_pyme.Pipeline.Tasks.{
  gathered, Tasks, here, next, exit, exited, no_task, after_exit, is_failure, read_done, after_wait,
  write_done, Reach, returned, get_sentinel, wake,
}
use boveda_pyme.Cli.{
  Catalogue, backup_done, after_pipeline, set_completed, row_of, backup, verified,
  generate_dek_for_snapshot,
}
use boveda_pyme.Cli.Finish.{upload_raises_completed, backup_lem, end_of, HasFinished, with_row}
use boveda_pyme.Cli.Verify.{verify, verify_full_iff, IsIntact}
use boveda_pyme.Tests.Samples.{
  sample_world, sample_db, sample_link, sample_snapshot, delete_sample, plain_encrypt,
  plain_decrypt, generator_after,
}

abbrev sample_catalogue : Catalogue
sample_catalogue = record {
  world = sample_world;
  configuracion = record { clave = "master_salt"; valor = "c2FsdA=="; es_secreto = false } ∷ [];
}

verify_full_iff_example :
    (verify (λ body. "aa") false true (some "bucket") "s1" sample_catalogue ≡ verified)
    ↔ All
        (IsIntact (λ body. "aa") sample_world.s3 sample_db.chunk_pool)
        (sample_link "s1" 0 "aa" ∷ [])
verify_full_iff_example =
    verify_full_iff (λ body. "aa") (some "bucket") "s1" sample_catalogue
      (sample_snapshot "s1" completed) (sample_link "s1" 0 "aa") [] refl refl refl

abbrev sample_started : Snapshot
sample_started =
    row_of plain_encrypt (λ i. []) (7 ∷ []) 9 "s3" "DIARIO" "db-prod" (9 ∷ 8 ∷ []) (1 ∷ [])

started-IsValid : IsValid (with_row sample_started sample_world).db
unfolding generate_dek_for_snapshot
started-IsValid = ground arith

backup_lem_example :
    let (e, left) =
      backup
        (λ p s. 7 ∷ [])
        plain_encrypt
        plain_decrypt
        (λ raw. "h")
        (λ i. [])
        (λ w. (ok tt, w))
        delete_sample
        (some "secret")
        (some "bucket")
        9
        "timeout"
        "s3"
        "DIARIO"
        "db-prod"
        (9 ∷ 8 ∷ [])
        (1 ∷ [])
        sample_catalogue in
    (e ≡ backup_done "s3")
    × HasFinished 9
        (ok tt)
        sample_started
        sample_db.snapshots
        (with_row sample_started sample_world).db
        left.db
backup_lem_example =
    backup_lem (λ p s. 7 ∷ []) plain_encrypt plain_decrypt (λ raw. "h") (λ i. []) (λ w. (ok tt, w))
      delete_sample "secret" (some "bucket") 9 "timeout" "s3" "DIARIO" "db-prod" (9 ∷ 8 ∷ [])
      (1 ∷ []) sample_catalogue
      (record { clave = "master_salt"; valor = "c2FsdA=="; es_secreto = false }) sample_started
      (ok tt) (with_row sample_started sample_world) refl refl refl refl refl refl refl
      started-IsValid

-- The upload has raised while the reader waits for its process.
abbrev after_upload : Tasks
after_upload = record uploading_one { task = no_task; shutdown = true }

abbrev returned_early : Tasks
returned_early = record after_upload {
  reader = read_done;
  writer = write_done;
  queue = [];
  main = returned;
}

to_return : Reach (λ c. c) plain_encrypt (λ raw. "h") sample_dek [] after_upload returned_early
unfolding after_exit is_failure after_wait
to_return =
    next
      (next (next (next here (exit (exited 1) refl)) (get_sentinel 1 generator_after refl refl))
        (gathered refl refl))
      (wake refl refl)

upload_raises_completed_example :
    Option.map (λ r. after_pipeline 9 "s1" (r, sample_world)) (end_of "timeout" returned)
    ≡ some (
      backup_done "s1",
      record sample_world { db = update_snapshot "s1" (set_completed 9) sample_db },
    )
upload_raises_completed_example =
    upload_raises_completed (λ c. c) plain_encrypt (λ raw. "h") sample_dek [] 9 "timeout" "s1"
      sample_world {s = after_upload} refl refl to_return (λ e. cc)
