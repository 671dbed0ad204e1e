-- ===== src/Backup/Run.antt =====
-- The uploads of a whole backup: upload_callback of src/boveda/cli.py as do_upload of
-- src/boveda/engine.py calls it, one at a time (MAX_CONCURRENT_UPLOADS is 1), in the order of the
-- chunks. After one that raised, the shutdown event keeps the others from being called.
pub mod Spared
use boveda_pyme.Prelude.{
  ℕ, ◌+◌, ◌<◌, String, ◌≡◌, Bool, true, List, [], ◌∷◌, map, some_of, All, Result, ok, err,
}
use boveda_pyme.Catalog.{SnapshotChunk, Db, has_id, of_snapshot}
use boveda_pyme.Purge.{World}
use boveda_pyme.Pipeline.{Upload}
use boveda_pyme.Backup.{PutObject, UploadError, new_link, upload_callback}

unfoldable pub upload_all :
    Bool → PutObject → ℕ → String → List Upload → World → Result UploadError (Unit {0}) × World
unfolding upload_callback
upload_all begins put_object now i [] w = (ok tt, w)
upload_all begins put_object now i (u ∷ us) w =
    let (r, w') = upload_callback begins put_object now i u.chunk_seq u.payload u.chunk_hash w in
    elim r as (λ _. Result UploadError (Unit {0}) × World) [
      | ok _ ↦ upload_all begins put_object now i us w'
      | err e ↦ (err e, w')
    ]
