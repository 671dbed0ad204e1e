-- ===== src/Retention.antt =====
-- purge_expired_snapshots of src/boveda/retention.py. What a session commits stays; what raises
-- after that is rolled back.
pub mod Expiry
pub mod Sound
pub mod Backed
pub mod Spared
pub mod Classify
use boveda_pyme.Prelude.{ℕ, String, some, List, [], ◌∷◌, map, select, Result, ok, err}
use boveda_pyme.Catalog.{
  Snapshot, Db, SqlError, Estado, purging, purge_failed, is_expired, delete_links, delete_snapshot,
  update_snapshot,
}
use boveda_pyme.Purge.{World, DeleteObjects, execute_two_phase_purge}

-- The default of `batch_size`.
abbrev pub batch_size : ℕ
batch_size = 500

abbrev pub set_estado : Estado → Snapshot → Snapshot
set_estado e s = record s { estado = e }

-- `snap.estado = "PURGE_FAILED"` and its detail, if the snapshot is still there.
abbrev pub set_purge_failed : String → Snapshot → Snapshot
set_purge_failed detail s = record s { estado = purge_failed; error_detail = some detail }

-- The handler: `exc` is the text of the exception, cut to 500 characters.
unfoldable pub on_failure : String → String → Db → Db
on_failure exc i db = update_snapshot i (set_purge_failed exc) db

-- The transaction that unlinks and deletes one snapshot.
unfoldable pub remove_snapshot : ℕ → String → Db → Result SqlError Db
remove_snapshot now i db = delete_snapshot now i (delete_links now i db)

abbrev pub settle_purge : String → String → Result SqlError ℕ × World → World
settle_purge exc i (ok n, w) = w
settle_purge exc i (err e, w) = record w { db = on_failure exc i w.db }

abbrev pub after_remove : DeleteObjects → String → String → World → Result SqlError Db → World
after_remove delete_objects exc i w (ok db) =
    settle_purge exc i (execute_two_phase_purge delete_objects batch_size (record w { db = db }))
after_remove delete_objects exc i w (err e) = record w { db = on_failure exc i w.db }

-- One turn of the loop, for the snapshot of an id.
unfoldable pub purge_snapshot : DeleteObjects → ℕ → String → World → String → World
unfolding remove_snapshot on_failure
purge_snapshot delete_objects now exc w i =
    let marked = update_snapshot i (set_estado purging) w.db in
    after_remove delete_objects exc i (record w { db = marked }) (remove_snapshot now i marked)

unfoldable pub purge_snapshots : DeleteObjects → ℕ → String → World → List String → World
purge_snapshots delete_objects now exc w [] = w
purge_snapshots delete_objects now exc w (i ∷ is) =
    purge_snapshots delete_objects now exc (purge_snapshot delete_objects now exc w i) is

-- The ids of the snapshots that the query finds.
abbrev pub expired_ids : List Snapshot → List String
expired_ids ss = map (λ s. s.id) (select (λ s. is_expired s.estado) ss)

unfoldable pub purge_expired_snapshots : DeleteObjects → ℕ → String → World → World
unfolding purge_snapshots purge_snapshot
purge_expired_snapshots delete_objects now exc w =
    purge_snapshots delete_objects now exc w (expired_ids w.db.snapshots)
