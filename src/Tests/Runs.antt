-- ===== src/Tests/Runs.antt =====
-- Witnesses for the tasks of the pipeline and for a backup with its restore.
use boveda_pyme.Prelude.{
  ℕ, ◌≡◌, refl, false, none, List, [], ◌∷◌, ok, ◌≢◌, ◌⊎◌, ◌≤◌, ◌+◌, ◌*◌, some, arith, true, map,
}
use boveda_pyme.Restore.EndToEnd.{backup-restore, output_of}
use boveda_pyme.Restore.RoundTrip.{bloque_of, Fits}
use boveda_pyme.Restore.{restore_snapshot}
use boveda_pyme.Pipeline.Source.{read_source, read_chunks}
use boveda_pyme.FastCdc.{feed, feed_loop, find_fastcdc_boundary_rolling, scan, is_cut, roll, no_cut}
use boveda_pyme.Pipeline.{compress_encrypt_upload}
use boveda_pyme.Pipeline.Tasks.{
  Tasks, Reach, start, spawn, put, put_sentinel, exit, get, get_sentinel, acquire, upload_returns,
  gathered, wake, here, next, exited, returned, read_done, write_done, no_task, awaiting, exiting,
  getting, uploading, after_exit, after_wait, is_failure,
}
use boveda_pyme.Pipeline.Tasks.Complete.{returned_complete}
use boveda_pyme.Pipeline.Tasks.Ends.{streaming_pipeline_settles}
use boveda_pyme.Pipeline.Tasks.Progress.{steps}
use boveda_pyme.Tests.Samples.{
  sample_generator, generator_after, plain_encrypt, sample_upload, seal_sample, small,
  small-AreSizes, gear, plain_decrypt, sealed_payload, sealed_snapshot,
}

abbrev pub sample_chunks : List (List ℕ)
sample_chunks = (5 ∷ 6 ∷ []) ∷ []

abbrev pub sample_dek : List ℕ
sample_dek = 9 ∷ 8 ∷ []

abbrev pub Run : Tasks → Type 0
Run t =
    Reach (λ c. c) plain_encrypt (λ raw. "h") sample_dek [] (start 0 sample_generator sample_chunks)
      t

abbrev pub uploading_one : Tasks
uploading_one = record {
  reader = exiting;
  writer = getting 1 generator_after;
  task = uploading sample_upload;
  queue = none ∷ [];
  shutdown = false;
  uploaded = [];
  main = awaiting;
}

pub to_upload : Run uploading_one
to_upload =
    next
      (next
        (next (next (next here (spawn sample_chunks refl)) (put (5 ∷ 6 ∷ []) [] refl refl))
          (get 0 sample_generator generator_after (5 ∷ 6 ∷ []) sample_upload refl refl seal_sample))
        (put_sentinel refl refl))
      (acquire 1 generator_after sample_upload refl refl)

abbrev all_done : Tasks
all_done = record {
  reader = read_done;
  writer = write_done;
  task = no_task;
  queue = [];
  shutdown = false;
  uploaded = sample_upload ∷ [];
  main = returned;
}

to_end : Run all_done
unfolding after_exit after_wait is_failure
to_end =
    next
      (next
        (next
          (next (next to_upload (get_sentinel 1 generator_after refl refl))
            (upload_returns sample_upload refl))
          (gathered refl refl))
        (exit (exited 0) refl))
      (wake refl refl)

returned_complete_example :
    (all_done.reader ≡ read_done)
    × (compress_encrypt_upload
          (λ c. c)
          plain_encrypt
          (λ raw. "h")
          sample_dek
          []
          0
          sample_generator
          sample_chunks
        ≡ (ok tt, sample_upload ∷ []))
returned_complete_example =
    returned_complete (λ c. c) plain_encrypt (λ raw. "h") sample_dek [] sample_chunks
      sample_generator to_end refl refl

streaming_pipeline_settles_example :
    (steps (λ c. c) plain_encrypt (λ raw. "h") sample_dek [] to_upload ≤ 6 * 1 + 13)
    × ((t : Tasks) × Reach (λ c. c) plain_encrypt (λ raw. "h") sample_dek [] uploading_one t
        × ((t.main ≢ awaiting) ⊎ (t.reader ≡ exiting)))
streaming_pipeline_settles_example =
    streaming_pipeline_settles (λ c. c) plain_encrypt (λ raw. "h") sample_dek [] sample_generator
      sample_chunks to_upload

read_source_runs : read_source small gear ((5 ∷ []) ∷ (6 ∷ []) ∷ []) ≡ some sample_chunks
unfolding read_source read_chunks feed feed_loop find_fastcdc_boundary_rolling scan is_cut roll
    no_cut
read_source_runs = refl

sample_chunks-Fits : Fits (λ c. c) 0 sample_generator sample_chunks
sample_chunks-Fits = record {
  sequence = omega arith;
  nonces = omega arith;
  prefix = refl;
  lengths = (omega arith, tt);
}

backup-restore_example :
    let (r, frames) =
      restore_snapshot plain_decrypt
        (λ raw. "h")
        (λ i. [])
        (λ k. some sealed_payload)
        sealed_snapshot
        (7 ∷ [])
        true
        (map (bloque_of (λ h. h)) (sample_upload ∷ [])) in
    (r ≡ ok tt) × (output_of (λ c. c) frames ≡ 5 ∷ 6 ∷ [])
backup-restore_example =
    backup-restore (λ c. c) (λ c. c) plain_encrypt plain_decrypt (λ raw. "h") (λ i. []) (λ c. refl)
      (λ k n p a. refl) small gear ((5 ∷ []) ∷ (6 ∷ []) ∷ []) sample_chunks
      (λ k. some sealed_payload) (λ h. h) (7 ∷ []) sample_dek sealed_snapshot sample_generator true
      all_done small-AreSizes (refl, (refl, tt)) read_source_runs sample_chunks-Fits refl refl
      to_end refl refl (refl, tt)
