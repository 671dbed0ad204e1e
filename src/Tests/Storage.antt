-- ===== src/Tests/Storage.antt =====
-- Witnesses for the purge and the retention.
use boveda_pyme.Prelude.{◌≡◌}
use boveda_pyme.Purge.{execute_two_phase_purge, chunks_to_purge}
use boveda_pyme.Tests.Samples.{sample_world, sample_db, sample_db-IsValid, delete_sample}
use boveda_pyme.Purge.Safety.{outcome, execute_two_phase_purge_lem}
use boveda_pyme.Retention.{purge_expired_snapshots, expired_ids}
use boveda_pyme.Retention.Expiry.{IsPurged, purge_expired_snapshots-IsPurged}

execute_two_phase_purge_lem_example :
    execute_two_phase_purge delete_sample 500 sample_world
    ≡ outcome delete_sample sample_world (chunks_to_purge 500 sample_db.chunk_pool)
execute_two_phase_purge_lem_example =
    execute_two_phase_purge_lem delete_sample 500 sample_world sample_db-IsValid

purge_expired_snapshots-IsPurged_example :
    IsPurged
      (expired_ids sample_db.snapshots)
      sample_db
      (purge_expired_snapshots delete_sample 9 "timeout" sample_world).db
purge_expired_snapshots-IsPurged_example =
    purge_expired_snapshots-IsPurged delete_sample 9 "timeout" sample_world sample_db-IsValid
