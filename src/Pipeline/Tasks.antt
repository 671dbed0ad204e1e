-- ===== src/Pipeline/Tasks.antt =====
-- The tasks of streaming_pipeline in src/boveda/engine.py: the reader (read_source), the writer
-- (compress_encrypt_upload), the upload that holds the semaphore, and the task that awaits the first
-- two. A step is what one of them does between two waits. The queue holds PIPELINE_QUEUE_MAXSIZE = 1
-- item and the semaphore admits MAX_CONCURRENT_UPLOADS = 1 upload. What the source process prints is
-- the list of the chunks that FastCDC makes of it. The source process may refuse to start, and it may
-- exit, or not, once the reader waits for that: after a shutdown nobody reads what it still prints.
pub mod Complete
pub mod Progress
pub mod Ends
use boveda_pyme.Prelude.{
  ℕ, ◌+◌, String, ◌≡◌, Bool, true, false, not, ◌&&◌, ◌||◌, Option, none, some, List, [], ◌∷◌, ◌++◌,
  ◌==◌, if◌then◌else◌, ok, err,
}
use boveda_pyme.Header.{NonceGenerator, HeaderError}
use boveda_pyme.Pipeline.{Upload, Encrypt, seal}

-- `proc.returncode`: an exit status, or the signal that a negative one stands for.
pub data ReturnCode : Type 0 where
  exited signalled : ℕ → ReturnCode

-- `proc.returncode != 0` and not `is_sigpipe`.
unfoldable pub is_failure : ReturnCode → Bool
is_failure (exited n) = not (n == 0) && not (n == 109) && not (n == 141)
is_failure (signalled n) = not (n == 13)

pub data Reader : Type 0 where
  starting feeding : List (List ℕ) → Reader
  exiting read_done read_failed : Reader

pub data Writer : Type 0 where
  getting : ℕ → NonceGenerator → Writer
  acquiring : ℕ → NonceGenerator → Upload → Writer
  gathering write_done write_failed : Writer

pub data UploadTask : Type 0 where
  no_task : UploadTask
  uploading : Upload → UploadTask

pub data Main : Type 0 where
  awaiting returned raised : Main

pub record Tasks : Type 0 where
  pub reader : Reader
  pub writer : Writer
  pub task : UploadTask
  pub queue : List (Option (List ℕ))
  pub shutdown : Bool
  pub uploaded : List Upload
  pub main : Main

abbrev pub is_feeding : Reader → Bool
is_feeding (starting _) = true
is_feeding (feeding _) = true
is_feeding _ = false

abbrev pub is_read_done : Reader → Bool
is_read_done read_done = true
is_read_done _ = false

abbrev pub is_read_failed : Reader → Bool
is_read_failed read_failed = true
is_read_failed _ = false

abbrev pub is_gathering : Writer → Bool
is_gathering gathering = true
is_gathering _ = false

abbrev pub is_write_done : Writer → Bool
is_write_done write_done = true
is_write_done _ = false

abbrev pub is_write_failed : Writer → Bool
is_write_failed write_failed = true
is_write_failed _ = false

-- What `asyncio.wait(…, return_when=FIRST_EXCEPTION)` waits for.
abbrev pub some_failed : Tasks → Bool
some_failed s = is_read_failed s.reader || is_write_failed s.writer

abbrev pub both_done : Tasks → Bool
both_done s = is_read_done s.reader && is_write_done s.writer

-- `proc.wait()` and the test of the return code.
unfoldable pub after_exit : Bool → ReturnCode → Reader
unfolding is_failure
after_exit shutdown code = if is_failure code && not shutdown then read_failed else read_done

-- A failed upload is seen by the writer only while it gathers: before that the task is discarded
-- from `background_tasks` when it ends.
unfoldable pub after_failure : Writer → Writer
after_failure w = if is_gathering w then write_failed else w

-- The end of streaming_pipeline.
unfoldable pub after_wait : Bool → Bool → Main
after_wait shutdown failed = if shutdown then returned else (if failed then raised else returned)

abbrev pub start : ℕ → NonceGenerator → List (List ℕ) → Tasks
start seq gen chunks = record {
  reader = starting chunks;
  writer = getting seq gen;
  task = no_task;
  queue = [];
  shutdown = false;
  uploaded = [];
  main = awaiting;
}

module _ (compress : List ℕ → List ℕ) (encrypt : Encrypt) (sha256 : List ℕ → String)
    (dek snapshot_id : List ℕ) where
  pub data Step (s : Tasks) : Tasks → Type 0 where
    spawn :
        (cs : List (List ℕ)) → s.reader ≡ starting cs → Step s (record s { reader = feeding cs })
    spawn_raises :
        (cs : List (List ℕ)) → s.reader ≡ starting cs → Step s (record s { reader = read_failed })
    put :
        (c : List ℕ) (cs : List (List ℕ))
        → s.reader ≡ feeding (c ∷ cs)
        → s.queue ≡ []
        → Step s (record s { reader = feeding cs; queue = some c ∷ [] })
    put_sentinel :
        s.reader ≡ feeding []
        → s.queue ≡ []
        → Step s (record s { reader = exiting; queue = none ∷ [] })
    stop_reading :
        (cs : List (List ℕ))
        → s.reader ≡ feeding cs
        → s.shutdown ≡ true
        → Step s (record s { reader = exiting })
    exit :
        (code : ReturnCode)
        → s.reader ≡ exiting
        → Step s (record s { reader = after_exit s.shutdown code })
    get :
        (seq : ℕ) (gen gen' : NonceGenerator) (c : List ℕ) (u : Upload)
        → s.writer ≡ getting seq gen
        → s.queue ≡ some c ∷ []
        → seal compress encrypt sha256 dek snapshot_id seq gen c ≡ ok (u, gen')
        → Step s (record s { queue = []; writer = acquiring (seq + 1) gen' u })
    get_raises :
        (seq : ℕ) (gen : NonceGenerator) (c : List ℕ) (e : HeaderError)
        → s.writer ≡ getting seq gen
        → s.queue ≡ some c ∷ []
        → seal compress encrypt sha256 dek snapshot_id seq gen c ≡ err e
        → Step s (record s { queue = []; writer = write_failed })
    get_sentinel :
        (seq : ℕ) (gen : NonceGenerator)
        → s.writer ≡ getting seq gen
        → s.queue ≡ none ∷ []
        → Step s (record s { queue = []; writer = gathering })
    stop_writing :
        (seq : ℕ) (gen : NonceGenerator)
        → s.writer ≡ getting seq gen
        → s.shutdown ≡ true
        → Step s (record s { writer = gathering })
    stop_writing_late :
        (seq : ℕ) (gen : NonceGenerator) (c : List ℕ)
        → s.writer ≡ getting seq gen
        → s.queue ≡ some c ∷ []
        → s.shutdown ≡ true
        → Step s (record s { queue = []; writer = gathering })
    acquire :
        (seq : ℕ) (gen : NonceGenerator) (u : Upload)
        → s.writer ≡ acquiring seq gen u
        → s.task ≡ no_task
        → Step s (record s { writer = getting seq gen; task = uploading u })
    upload_returns :
        (u : Upload)
        → s.task ≡ uploading u
        → Step s (record s { task = no_task; uploaded = s.uploaded ++ u ∷ [] })
    upload_skipped :
        (u : Upload)
        → s.task ≡ uploading u
        → s.shutdown ≡ true
        → Step s (record s { task = no_task })
    upload_raises :
        (u : Upload)
        → s.task ≡ uploading u
        → Step s (record s { task = no_task; shutdown = true; writer = after_failure s.writer })
    gathered : s.writer ≡ gathering → s.task ≡ no_task → Step s (record s { writer = write_done })
    wake :
        s.main ≡ awaiting
        → (some_failed s || both_done s) ≡ true
        → Step s (record s { main = after_wait s.shutdown (some_failed s) })

  pub data Reach (s : Tasks) : Tasks → Type 0 where
    here : Reach s s
    next : {t u : Tasks} → Reach s t → Step t u → Reach s u
