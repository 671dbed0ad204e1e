-- ===== src/Pipeline/Tasks/Progress.antt =====
-- What every step of the tasks of src/boveda/engine.py keeps, the measure that it lowers, and which
-- step a task that waits can take.
use boveda_pyme.Prelude.{
  ℕ, ◌+◌, ◌*◌, ◌≤◌, ◌<◌, String, ◌≡◌, Bool, true, false, ◌||◌, Option, List, [], ◌∷◌, arith, length,
  ◌⊎◌, ◌≢◌, inl, Bool-cases, Result-cases, inr, suc, zero, refl, some, none,
}
use boveda_pyme.Pipeline.{Encrypt, NonceGenerator, seal}
use boveda_pyme.Pipeline.Tasks.{
  Reader, Writer, UploadTask, Main, Tasks, Step, Reach, starting, spawn, spawn_raises,
  is_read_failed, feeding, exiting, getting, acquiring, gathering, no_task, uploading, awaiting,
  is_feeding, is_gathering, is_write_done, after_exit, after_failure, after_wait, put, put_sentinel,
  stop_reading, exit, get, get_raises, get_sentinel, stop_writing, stop_writing_late, acquire,
  upload_returns, upload_skipped, upload_raises, gathered, wake, here, next, write_done, start,
  raised, returned, read_done, read_failed, write_failed,
}
use boveda_pyme.Pipeline.Tasks.Complete.{has_sentinel}

abbrev is_short : List (Option (List ℕ)) → Bool
is_short [] = true
is_short (x ∷ []) = true
is_short _ = false

-- Whether the writer still waits for the queue.
abbrev is_open : Writer → Bool
is_open (getting _ _) = true
is_open (acquiring _ _ _) = true
is_open _ = false

abbrev reader_cost : Reader → ℕ
reader_cost (starting cs) = 9 + 6 * length cs
reader_cost (feeding cs) = 8 + 6 * length cs
reader_cost exiting = 2
reader_cost _ = 0

abbrev writer_cost : Writer → ℕ
writer_cost (getting _ _) = 3
writer_cost (acquiring _ _ _) = 7
writer_cost gathering = 1
writer_cost _ = 0

abbrev task_cost : UploadTask → ℕ
task_cost no_task = 0
task_cost (uploading _) = 3

abbrev main_cost : Main → ℕ
main_cost awaiting = 1
main_cost _ = 0

abbrev pub cost : Tasks → ℕ
cost s =
    reader_cost s.reader
    + writer_cost s.writer
    + task_cost s.task
    + 5 * length s.queue
    + main_cost s.main

pub record IsLive (s : Tasks) : Type 0 where
  short : is_short s.queue ≡ true
  sentinel : has_sentinel s.queue ≡ true → is_feeding s.reader ≡ false
  pending :
      s.shutdown ≡ false
      → is_feeding s.reader ≡ false
      → is_read_failed s.reader ≡ false
      → is_open s.writer ≡ true
      → has_sentinel s.queue ≡ true
  over :
      s.shutdown ≡ false
      → (is_gathering s.writer || is_write_done s.writer) ≡ true
      → is_feeding s.reader ≡ false

module _ (compress : List ℕ → List ℕ) (encrypt : Encrypt) (sha256 : List ℕ → String)
    (dek snapshot_id : List ℕ) where
  abbrev pub Steps : Tasks → Tasks → Type 0
  Steps s t = Step compress encrypt sha256 dek snapshot_id s t

  abbrev pub Runs : Tasks → Tasks → Type 0
  Runs s t = Reach compress encrypt sha256 dek snapshot_id s t

  Step-cost : {s t : Tasks} → Steps s t → cost t < cost s
  unfolding after_exit after_failure after_wait
  Step-cost (spawn cs r) = ground arith
  Step-cost (spawn_raises cs r) = ground arith
  Step-cost (put c cs r q) = ground arith
  Step-cost (put_sentinel r q) = ground arith
  Step-cost (stop_reading cs r h) = ground arith
  Step-cost (exit code r) = ground arith
  Step-cost (get seq gen gen' c u w q e) = ground arith
  Step-cost (get_raises seq gen c e w q h) = ground arith
  Step-cost (get_sentinel seq gen w q) = ground arith
  Step-cost (stop_writing seq gen w h) = ground arith
  Step-cost (stop_writing_late seq gen c w q h) = ground arith
  Step-cost (acquire seq gen u w t) = ground arith
  Step-cost (upload_returns u t) = ground arith
  Step-cost (upload_skipped u t h) = ground arith
  Step-cost (upload_raises u t) = ground arith
  Step-cost (gathered w t) = ground arith
  Step-cost (wake m h) = ground arith

  Step-IsLive : {s t : Tasks} → Steps s t → IsLive s → IsLive t
  unfolding after_exit after_failure after_wait
  Step-IsLive (spawn cs r) i = ground (arith, i.pending, i.over, i.sentinel)
  Step-IsLive (spawn_raises cs r) i = ground (arith, i.pending, i.over, i.sentinel)
  Step-IsLive (put c cs r q) i = ground (arith, i.pending, i.over, i.sentinel)
  Step-IsLive (put_sentinel r q) i = ground (arith, i.pending, i.over, i.sentinel)
  Step-IsLive (stop_reading cs r h) i = ground (arith, i.pending, i.over, i.sentinel)
  Step-IsLive (exit code r) i = ground (arith, i.pending, i.over, i.sentinel)
  Step-IsLive (get seq gen gen' c u w q e) i = ground (arith, i.pending, i.over, i.sentinel)
  Step-IsLive (get_raises seq gen c e w q h) i = ground (arith, i.pending, i.over, i.sentinel)
  Step-IsLive (get_sentinel seq gen w q) i = ground (arith, i.pending, i.over, i.sentinel)
  Step-IsLive (stop_writing seq gen w h) i = ground (arith, i.pending, i.over, i.sentinel)
  Step-IsLive (stop_writing_late seq gen c w q h) i = ground (arith, i.pending, i.over, i.sentinel)
  Step-IsLive (acquire seq gen u w t) i = ground (arith, i.pending, i.over, i.sentinel)
  Step-IsLive (upload_returns u t) i = ground (arith, i.pending, i.over, i.sentinel)
  Step-IsLive (upload_skipped u t h) i = ground (arith, i.pending, i.over, i.sentinel)
  Step-IsLive (upload_raises u t) i = ground (arith, i.pending, i.over, i.sentinel)
  Step-IsLive (gathered w t) i = ground (arith, i.pending, i.over, i.sentinel)
  Step-IsLive (wake m h) i = ground (arith, i.pending, i.over, i.sentinel)

  -- The number of steps of a run.
  pub steps : {s t : Tasks} → Runs s t → ℕ
  steps here = 0
  steps (next r st) = steps r + 1

  pub steps-cost : {s t : Tasks} (r : Runs s t) → steps r + cost t ≤ cost s
  unfolding steps
  steps-cost here = omega arith
  steps-cost (next r st) = omega (arith, steps-cost r, Step-cost st)

  pub start-IsLive :
      (seq : ℕ) (gen : NonceGenerator) (chunks : List (List ℕ)) → IsLive (start seq gen chunks)
  start-IsLive seq gen chunks = ground arith

  pub Reach-IsLive : {s t : Tasks} → IsLive s → Runs s t → IsLive t
  Reach-IsLive i here = i
  Reach-IsLive i (next r st) = Step-IsLive st (Reach-IsLive i r)

  -- Some task moves, or the reader waits for its process to exit.
  abbrev Moves : Tasks → Type 0
  Moves s = ((t : Tasks) × Steps s t) ⊎ (s.reader ≡ exiting)

  -- The writer waits for the queue, and the queue is empty: the reader moves, or the writer stops.
  fed :
      (s : Tasks) (seq : ℕ) (gen : NonceGenerator) (r : Reader)
      → IsLive s
      → s.main ≡ awaiting
      → s.writer ≡ getting seq gen
      → s.queue ≡ []
      → s.reader ≡ r
      → Moves s
  fed s seq gen (starting cs) i m w q e = inl (_, spawn cs e)
  fed s seq gen (feeding []) i m w q e = inl (_, put_sentinel e q)
  fed s seq gen (feeding (c ∷ cs)) i m w q e = inl (_, put c cs e q)
  fed s seq gen exiting i m w q e = inr e
  fed s seq gen read_failed i m w q e = inl (_, wake m (ground arith))
  fed s seq gen read_done i m w q e = elim (Bool-cases s.shutdown) [
    | inl h ↦ inl (_, stop_writing seq gen w h)
    | inr h ↦
        let lost = i.pending h (ground arith) (ground arith) (ground arith) in absurd (ground arith)
  ]

  -- The writer waits for the queue.
  served :
      (s : Tasks) (seq : ℕ) (gen : NonceGenerator) (q : List (Option (List ℕ)))
      → IsLive s
      → s.main ≡ awaiting
      → s.writer ≡ getting seq gen
      → s.queue ≡ q
      → Moves s
  served s seq gen [] i m w e = fed s seq gen s.reader i m w e refl
  served s seq gen (none ∷ []) i m w e = inl (_, get_sentinel seq gen w e)
  served s seq gen (some c ∷ []) i m w e =
      elim (Result-cases (seal compress encrypt sha256 dek snapshot_id seq gen c)) [
        | inl ((u, gen'), sealed) ↦ inl (_, get seq gen gen' c u w e sealed)
        | inr (x, failed) ↦ inl (_, get_raises seq gen c x w e failed)
      ]
  served s seq gen (x ∷ y ∷ q) i m w e = absurd (ground (arith, i.short))

  -- The writer has returned.
  closing :
      (s : Tasks) (r : Reader)
      → IsLive s
      → s.main ≡ awaiting
      → s.writer ≡ write_done
      → s.reader ≡ r
      → Moves s
  closing s exiting i m w e = inr e
  closing s read_done i m w e = inl (_, wake m (ground arith))
  closing s read_failed i m w e = inl (_, wake m (ground arith))
  closing s (starting cs) i m w e = inl (_, spawn cs e)
  closing s (feeding cs) i m w e = elim (Bool-cases s.shutdown) [
    | inl h ↦ inl (_, stop_reading cs e h)
    | inr h ↦ let lost = i.over h (ground arith) in absurd (ground arith)
  ]

  moves :
      (s : Tasks) (w : Writer) (t : UploadTask)
      → IsLive s
      → s.main ≡ awaiting
      → s.writer ≡ w
      → s.task ≡ t
      → Moves s
  moves s w (uploading u) i m e f = inl (_, upload_returns u f)
  moves s (getting seq gen) no_task i m e f = served s seq gen s.queue i m e refl
  moves s (acquiring seq gen u) no_task i m e f = inl (_, acquire seq gen u e f)
  moves s gathering no_task i m e f = inl (_, gathered e f)
  moves s write_done no_task i m e f = closing s s.reader i m e refl
  moves s write_failed no_task i m e f = inl (_, wake m (ground arith))

  pub Reach-trans : {s t u : Tasks} → Runs s t → Runs t u → Runs s u
  Reach-trans r here = r
  Reach-trans r (next q st) = next (Reach-trans r q) st

  pub only_returned : (m : Main) → m ≢ awaiting → m ≢ raised → m ≡ returned
  only_returned awaiting a b = absurd (a refl)
  only_returned returned a b = refl
  only_returned raised a b = absurd (b refl)

  Main-cases : (m : Main) → (m ≡ awaiting) ⊎ (m ≢ awaiting)
  Main-cases awaiting = inl refl
  Main-cases returned = inr (λ e. cc)
  Main-cases raised = inr (λ e. cc)

  -- A state in which the pipeline has ended, or only the process of the source is waited for.
  abbrev pub HasSettled : Tasks → Type 0
  HasSettled t = (t.main ≢ awaiting) ⊎ (t.reader ≡ exiting)

  pub goes_on : (n : ℕ) (s : Tasks) → cost s ≤ n → IsLive s → (t : Tasks) × Runs s t × HasSettled t
  goes_on zero s h i = elim (Main-cases s.main) [
    | inl m ↦ absurd (ground arith)
    | inr ended ↦ (s, here, inl ended)
  ]
  goes_on (suc n) s h i = elim (Main-cases s.main) [
    | inr ended ↦ (s, here, inl ended)
    | inl m ↦ elim (moves s s.writer s.task i m refl refl) [
      | inl (t, st) ↦
          let (u, run, settled) = goes_on n t (omega (arith, Step-cost st)) (Step-IsLive st i) in
          (u, Reach-trans (next here st) run, settled)
      | inr waits ↦ (s, here, inr waits)
    ]
  ]
