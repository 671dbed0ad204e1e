-- ===== src/Purge/Safety.antt =====
-- What the whole purge of src/boveda/retention.py promises, whatever the object store answers.
use boveda_pyme.Prelude.{
  Result, ℕ, String, ◌≡◌, refl, Bool, true, false, List, map, if◌then◌else◌, length, ok,
}
use boveda_pyme.Catalog.{SqlError, Db}
use boveda_pyme.Catalog.Valid.{IsValid}
use boveda_pyme.Purge.{
  World, DeleteObjects, is_empty, chunks_to_purge, phase_1, phase_2, execute_two_phase_purge,
}
use boveda_pyme.Purge.Phases.{with_pool, without_batch, phases_confirm, phases_revert}

-- What the purge leaves in the catalogue: without the batch if the call succeeded, else all of it.
abbrev pub purged : Bool → List (String × String) → Db → Db
purged true cs db = with_pool (without_batch cs db.chunk_pool) db
purged false cs db = db

abbrev pub purged_count : Bool → List (String × String) → ℕ
purged_count true cs = length cs
purged_count false cs = 0

abbrev pub keys_of : List (String × String) → List String
keys_of cs = map (λ c. c.1) cs

-- What the purge comes to: with an empty batch nothing happens; else the answer of the one call to
-- the bucket decides.
abbrev pub outcome : DeleteObjects → World → List (String × String) → Result SqlError ℕ × World
outcome delete_objects w cs =
    let (s3_success, s3) = delete_objects (keys_of cs) w.s3 in
    if is_empty cs
    then (ok 0, w)
    else (ok (purged_count s3_success cs), record { db = purged s3_success cs w.db; s3 = s3 })

phases_lem :
    (b : Bool) (n : ℕ) (db : Db)
    → IsValid db
    → let (cs, marked) = phase_1 n db in
      phase_2 b cs marked
      ≡ ok (
        purged_count b (chunks_to_purge n db.chunk_pool),
        purged b (chunks_to_purge n db.chunk_pool) db,
      )
unfolding phase_1
phases_lem true n db v = phases_confirm n db v
phases_lem false n db v = phases_revert n db v

-- With a batch that is not empty the purge is never refused: after a call that succeeded the batch
-- is gone and counted, after one that failed the catalogue is as it was. With an empty batch
-- nothing happens.
pub execute_two_phase_purge_lem :
    (delete_objects : DeleteObjects) (n : ℕ) (w : World)
    → IsValid w.db
    → execute_two_phase_purge delete_objects n w
      ≡ outcome delete_objects w (chunks_to_purge n w.db.chunk_pool)
unfolding execute_two_phase_purge phase_1
execute_two_phase_purge_lem delete_objects n w v =
    let cs = chunks_to_purge n w.db.chunk_pool in
    rw (phases_lem (delete_objects (keys_of cs) w.s3).0 n w.db v) refl
