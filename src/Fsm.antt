-- ===== src/Fsm.antt =====
-- The state machine of src/boveda/fsm.py, and the status changes of the clean-up of
-- src/boveda/storage.py (cleanup_in_progress_snapshots), which fails the snapshots that a crash left
-- RUNNING.
pub mod Progress
use boveda_pyme.Prelude.{Bool, true, false, not, some, List, ◌>>◌, raise_if, Result, ok}
use boveda_pyme.Catalog.{
  pending, running, completed, expired, purging, purged, purge_failed, failed, cleanup, Snapshot,
  Estado, is_running, update_where,
}

pub data FsmError : Type 0 where
  not_allowed : Estado → Estado → FsmError

-- `new_estado in VALID_TRANSITIONS.get(estado, set())`
unfoldable pub is_valid_transition : Estado → Estado → Bool
is_valid_transition pending running = true
is_valid_transition running completed = true
is_valid_transition running failed = true
is_valid_transition completed expired = true
is_valid_transition expired purging = true
is_valid_transition purging purged = true
is_valid_transition purging purge_failed = true
is_valid_transition purge_failed purging = true
is_valid_transition failed cleanup = true
is_valid_transition cleanup purged = true
is_valid_transition _ _ = false

unfoldable pub transition_snapshot : Snapshot → Estado → Result FsmError Snapshot
unfolding is_valid_transition
transition_snapshot s e = do
  raise_if (not (is_valid_transition s.estado e)) (not_allowed s.estado e)
  ok (record s { estado = e })

abbrev pub interrupt : Snapshot → Snapshot
interrupt s = record s {
  estado = failed;
  error_detail = some "Proceso interrumpido abruptamente (crash/OOM kill previo)";
}

unfoldable pub cleanup_in_progress_snapshots : List Snapshot → List Snapshot
cleanup_in_progress_snapshots ss = update_where (λ s. is_running s.estado) interrupt ss
