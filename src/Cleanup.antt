-- ===== src/Cleanup.antt =====
-- The start of the program after a crash: cleanup_in_progress_snapshots of src/boveda/storage.py with
-- the calls that abort the uploads of the snapshots that were RUNNING. The bucket's answer to a call
-- is a parameter.
pub mod Aborted
use Prim.Native.String.{◌++◌ as text_append}
use boveda_pyme.Prelude.{
  String, Bool, Option, none, some, List, [], ◌∷◌, select, str_eq, if◌then◌else◌, Result, ok, err,
}
use boveda_pyme.Catalog.{Snapshot, is_running}
use boveda_pyme.Fsm.{cleanup_in_progress_snapshots}

-- How a call of the client ends: by returning, by a ClientError, or by another exception.
pub data AbortCall : Type 0 where
  aborted client_error raises : AbortCall

-- By the storage key and the id of the upload.
abbrev pub Abort : Type 0
Abort = String → String → AbortCall

pub data CleanupError : Type 0 where
  abort_raised : CleanupError

-- A ClientError is logged.
unfoldable pub abort_multipart_upload : AbortCall → Result CleanupError (Unit {0})
abort_multipart_upload aborted = ok tt
abort_multipart_upload client_error = ok tt
abort_multipart_upload raises = err abort_raised

-- f"snapshots/{snap.id}/data"
abbrev pub data_key : Snapshot → String
data_key s = text_append "snapshots/" (text_append s.id "/data")

-- The upload that a snapshot names, if it names one.
abbrev pub upload_of : Snapshot → Option String
upload_of s = elim s.multipart_upload_id [
  | none ↦ none
  | some u ↦ if str_eq u "" then none else some u
]

abbrev pub Calls : Type 0
Calls = List (String × String)

abbrev pub after_call :
    String × String
    → Result CleanupError (Unit {0})
    → Result CleanupError (Unit {0}) × Calls
    → Result CleanupError (Unit {0}) × Calls
after_call call (ok _) (r, calls) = (r, call ∷ calls)
after_call call (err e) rest = (err e, call ∷ [])

-- The loop over the stale snapshots: how it ended, and the calls that were made.
unfoldable pub abort_uploads : Abort → List Snapshot → Result CleanupError (Unit {0}) × Calls
unfolding abort_multipart_upload
abort_uploads abort [] = (ok tt, [])
abort_uploads abort (s ∷ ss) =
    let rest = abort_uploads abort ss in
    elim (upload_of s) as (λ _. Result CleanupError (Unit {0}) × Calls) [
      | none ↦ rest
      | some u ↦ after_call (data_key s, u) (abort_multipart_upload (abort (data_key s) u)) rest
    ]

-- What the session commits: nothing if the loop raised.
abbrev pub settle_cleanup :
    List Snapshot
    → Result CleanupError (Unit {0}) × Calls
    → Result CleanupError (Unit {0}) × List Snapshot × Calls
settle_cleanup ss (ok _, calls) = (ok tt, cleanup_in_progress_snapshots ss, calls)
settle_cleanup ss (err e, calls) = (err e, ss, calls)

unfoldable pub cleanup_after_crash :
    Abort → List Snapshot → Result CleanupError (Unit {0}) × List Snapshot × Calls
unfolding abort_uploads
cleanup_after_crash abort ss =
    settle_cleanup ss (abort_uploads abort (select (λ s. is_running s.estado) ss))
