-- ===== src/Pipeline/Tasks/Ends.antt =====
-- How long the runs of the tasks of src/boveda/engine.py are, and how they end.
use boveda_pyme.Prelude.{ℕ, ◌+◌, ◌*◌, ◌≤◌, String, ◌≡◌, true, List, arith, length, ◌≢◌, ◌⊎◌, refl}
use boveda_pyme.Pipeline.{Encrypt, NonceGenerator}
use boveda_pyme.Pipeline.Tasks.{
  Tasks, Step, Reach, spawn, spawn_raises, exiting, awaiting, after_exit, after_failure, after_wait,
  put, put_sentinel, stop_reading, exit, get, get_raises, get_sentinel, stop_writing,
  stop_writing_late, acquire, upload_returns, upload_skipped, upload_raises, gathered, wake, here,
  next, start, raised,
}
use boveda_pyme.Pipeline.Tasks.Progress.{
  cost, steps, steps-cost, start-IsLive, Reach-IsLive, goes_on,
}

module _ (compress : List ℕ → List ℕ) (encrypt : Encrypt) (sha256 : List ℕ → String)
    (dek snapshot_id : List ℕ) where
  -- No two tasks wait for each other: from every state that a pipeline of `chunks` can come to, some
  -- run goes on until the pipeline has returned or raised, or the reader waits for the process of the
  -- source to exit. No run from the start has more than six steps for each chunk and thirteen more.
  pub streaming_pipeline_settles :
      (gen : NonceGenerator) (chunks : List (List ℕ)) {s : Tasks}
      → (r : Reach compress encrypt sha256 dek snapshot_id (start 0 gen chunks) s)
      → (steps compress encrypt sha256 dek snapshot_id r ≤ 6 * length chunks + 13)
        × ((t : Tasks) × Reach compress encrypt sha256 dek snapshot_id s t
            × ((t.main ≢ awaiting) ⊎ (t.reader ≡ exiting)))
  streaming_pipeline_settles gen chunks {s} r = (
    omega (arith, steps-cost compress encrypt sha256 dek snapshot_id r),
    goes_on compress encrypt sha256 dek snapshot_id (cost s) s (omega arith) (
        Reach-IsLive compress encrypt sha256 dek snapshot_id
          (start-IsLive compress encrypt sha256 dek snapshot_id 0 gen chunks) r),
  )

  Step-not_raised :
      {s t : Tasks}
      → Step compress encrypt sha256 dek snapshot_id s t
      → s.shutdown ≡ true
      → s.main ≢ raised
      → (t.shutdown ≡ true) × (t.main ≢ raised)
  unfolding after_exit after_failure after_wait
  Step-not_raised (spawn cs r) d m = (d, m)
  Step-not_raised (spawn_raises cs r) d m = (d, m)
  Step-not_raised (put c cs r q) d m = (d, m)
  Step-not_raised (put_sentinel r q) d m = (d, m)
  Step-not_raised (stop_reading cs r h) d m = (d, m)
  Step-not_raised (exit code r) d m = (d, m)
  Step-not_raised (get seq gen gen' c u w q e) d m = (d, m)
  Step-not_raised (get_raises seq gen c e w q h) d m = (d, m)
  Step-not_raised (get_sentinel seq gen w q) d m = (d, m)
  Step-not_raised (stop_writing seq gen w h) d m = (d, m)
  Step-not_raised (stop_writing_late seq gen c w q h) d m = (d, m)
  Step-not_raised (acquire seq gen u w t) d m = (d, m)
  Step-not_raised (upload_returns u t) d m = (d, m)
  Step-not_raised (upload_skipped u t h) d m = (d, m)
  Step-not_raised (upload_raises u t) d m = (refl, m)
  Step-not_raised (gathered w t) d m = (d, m)
  Step-not_raised (wake e h) d m = (d, rw d (λ x. cc))

  Reach-not_raised :
      {s t : Tasks}
      → s.shutdown ≡ true
      → s.main ≢ raised
      → Reach compress encrypt sha256 dek snapshot_id s t
      → (t.shutdown ≡ true) × (t.main ≢ raised)
  Reach-not_raised d m here = (d, m)
  Reach-not_raised d m (next r st) =
      let (d', m') = Reach-not_raised d m r in Step-not_raised st d' m'

  -- Once an upload has raised while the pipeline was running, the pipeline does not raise: the
  -- exception of the upload reaches nobody.
  pub upload_raises_calm :
      {s t : Tasks}
      → s.shutdown ≡ true
      → s.main ≡ awaiting
      → Reach compress encrypt sha256 dek snapshot_id s t
      → t.main ≢ raised
  upload_raises_calm {s} d m run =
      let quiet : s.main ≢ raised = λ e. cc in (Reach-not_raised d quiet run).1
