-- ===== src/Cli/Finish.antt =====
-- How `backup` of src/boveda/cli.py leaves the catalogue.
use text.Mathlib.TextPositions.{eq_refl}
use boveda_pyme.Prelude.{
  ℕ, String, ◌≡◌, refl, ap, ◌∙◌, Bool, true, false, not, Option, none, some, List, [], ◌∷◌, ◌++◌,
  arith, eq_iff, select, some_of, Result, ok, err, ◌≢◌, sym,
}
use boveda_pyme.Pipeline.Tasks.Ends.{upload_raises_calm}
use boveda_pyme.Pipeline.Tasks.{awaiting, returned, raised, Main, Tasks, Reach}
use boveda_pyme.Catalog.{Snapshot, Db, is_expired, has_id, update_where, update_snapshot}
use boveda_pyme.Catalog.Valid.{IsValid}
use boveda_pyme.Catalog.Statements.{update_snapshot-IsValid}
use boveda_pyme.Purge.{World, DeleteObjects}
use boveda_pyme.Retention.{expired_ids, purge_expired_snapshots}
use boveda_pyme.Retention.Expiry.{is_listed, purge_expired_snapshots-IsPurged}
use boveda_pyme.Pipeline.{Encrypt}
use boveda_pyme.Restore.{Decrypt}
use boveda_pyme.Cli.{
  Catalogue, Setting, Echo, backup_done, backup_failed, is_missing, setting_of, insert_snapshot,
  set_completed, set_failed, after_pipeline, backup, row_of,
}
use mathlib.Core.Option

-- The row of a backup after its pipeline, and what is printed.
abbrev pub finished : ℕ → Result String (Unit {0}) → Snapshot → Snapshot
finished now (ok _) s = set_completed now s
finished now (err exc) s = set_failed exc s

abbrev pub echo_of : String → Result String (Unit {0}) → Echo
echo_of i (ok _) = backup_done i
echo_of i (err _) = backup_failed i

update_fresh :
    (f : Snapshot → Snapshot) (s : Snapshot) (ss : List Snapshot)
    → some_of (has_id s.id) ss ≡ false
    → update_where (has_id s.id) f (ss ++ s ∷ []) ≡ ss ++ f s ∷ []
update_fresh f s [] e = let same = eq_refl s.id in ground arith
update_fresh f s (q ∷ ss) e = ground (arith, update_fresh f s ss)

expired_ids-last :
    (s : Snapshot) (ss : List Snapshot)
    → is_expired s.estado ≡ false
    → expired_ids (ss ++ s ∷ []) ≡ expired_ids ss
expired_ids-last s [] e = ground arith
expired_ids-last s (q ∷ ss) e = ground (arith, expired_ids-last s ss)

pub listed_fresh :
    (i : String) (ss : List Snapshot)
    → some_of (has_id i) ss ≡ false
    → is_listed (expired_ids ss) i ≡ false
listed_fresh i [] e = refl
listed_fresh i (s ∷ ss) e = ground (arith, eq_iff s.id i, eq_iff i s.id, listed_fresh i ss)

select-last :
    (p : Snapshot → Bool) (s : Snapshot) (ss : List Snapshot)
    → p s ≡ true
    → select p (ss ++ s ∷ []) ≡ select p ss ++ s ∷ []
select-last p s [] e = ground arith
select-last p s (q ∷ ss) e = ground (arith, select-last p s ss)

-- The rows of a catalogue after a backup, up to what the expiry run removes.
pub record HasFinished (now : ℕ) (r : Result String (Unit {0})) (s : Snapshot) (ss : List Snapshot)
    (before db : Db) : Type 0 where
  pub valid : IsValid db
  pub snapshots :
      db.snapshots ≡ select (λ q. not (is_listed (expired_ids ss) q.id)) ss ++ finished now r s ∷ []
  pub links :
      db.snapshot_chunks
      ≡ select (λ l. not (is_listed (expired_ids ss) l.snapshot_id)) before.snapshot_chunks

-- An update of the new row, and the expiry run.
update_then_purge :
    (f : Snapshot → Snapshot) (delete_objects : DeleteObjects) (now : ℕ) (exc : String)
    (s : Snapshot) (ss : List Snapshot) (w : World)
    → ((q : Snapshot) → (f q).id ≡ q.id)
    → is_expired (f s).estado ≡ false
    → w.db.snapshots ≡ ss ++ s ∷ []
    → some_of (has_id s.id) ss ≡ false
    → IsValid w.db
    → let db =
        (purge_expired_snapshots delete_objects now exc
          (record w { db = update_snapshot s.id f w.db })).db in
      IsValid db
      × (db.snapshots ≡ select (λ q. not (is_listed (expired_ids ss) q.id)) ss ++ f s ∷ [])
      × (db.snapshot_chunks
          ≡ select (λ l. not (is_listed (expired_ids ss) l.snapshot_id)) w.db.snapshot_chunks)
unfolding update_snapshot
update_then_purge f delete_objects now exc s ss w k x e n v =
    let marked : World = record w { db = update_snapshot s.id f w.db } in
    let p =
      purge_expired_snapshots-IsPurged delete_objects now exc marked
        (update_snapshot-IsValid s.id f w.db k v) in
    let rows = ap (update_where (has_id s.id) f) e ∙ update_fresh f s ss n in
    let ids = ap expired_ids rows ∙ expired_ids-last (f s) ss x in
    let kept : not (is_listed (expired_ids ss) (f s).id) ≡ true =
      rw (k s) (rw (listed_fresh s.id ss n) refl) in
    (
      p.valid,
      p.snapshots
          ∙ ap
              (λ is.
                select (λ q. not (is_listed is q.id)) (update_where (has_id s.id) f w.db.snapshots))
              ids
          ∙ ap (select (λ q. not (is_listed (expired_ids ss) q.id))) rows
          ∙ select-last (λ q. not (is_listed (expired_ids ss) q.id)) (f s) ss kept,
      p.links ∙ ap (λ is. select (λ l. not (is_listed is l.snapshot_id)) w.db.snapshot_chunks) ids,
    )

finish_lem :
    (delete_objects : DeleteObjects) (now : ℕ) (exc : String) (r : Result String (Unit {0}))
    (s : Snapshot) (ss : List Snapshot) (w : World)
    → w.db.snapshots ≡ ss ++ s ∷ []
    → some_of (has_id s.id) ss ≡ false
    → IsValid w.db
    → HasFinished now r s ss w.db
        (purge_expired_snapshots delete_objects now exc (after_pipeline now s.id (r, w)).1).db
unfolding after_pipeline update_snapshot
finish_lem delete_objects now exc (ok _) s ss w e n v =
    let (valid, rows, links) =
      update_then_purge (set_completed now) delete_objects now exc s ss w (λ q. refl) refl e n v in
    record { valid = valid; snapshots = rows; links = links }
finish_lem delete_objects now exc (err x) s ss w e n v =
    let (valid, rows, links) =
      update_then_purge (set_failed x) delete_objects now exc s ss w (λ q. refl) refl e n v in
    record { valid = valid; snapshots = rows; links = links }

finish_as :
    (delete_objects : DeleteObjects) (now : ℕ) (exc i : String) (r : Result String (Unit {0}))
    (s : Snapshot) (ss : List Snapshot) (w : World)
    → s.id ≡ i
    → w.db.snapshots ≡ ss ++ s ∷ []
    → some_of (has_id i) ss ≡ false
    → IsValid w.db
    → HasFinished now r s ss w.db
        (purge_expired_snapshots delete_objects now exc (after_pipeline now i (r, w)).1).db
finish_as delete_objects now exc i r s ss w same e n v =
    rw (sym same) (finish_lem delete_objects now exc r s ss w e (rw same n) v)

after_pipeline_echo :
    (now : ℕ) (i : String) (r : Result String (Unit {0})) (w : World)
    → (after_pipeline now i (r, w)).0 ≡ echo_of i r
unfolding after_pipeline
after_pipeline_echo now i (ok _) w = refl
after_pipeline_echo now i (err x) w = refl

-- The world in which the pipeline of a backup starts.
abbrev pub with_row : Snapshot → World → World
with_row s w = record w { db = record w.db { snapshots = w.db.snapshots ++ s ∷ [] } }

module _ (derive_kek : String → String → List ℕ) (encrypt : Encrypt) (decrypt : Decrypt)
    (sha256 : List ℕ → String) (utf8 : String → List ℕ) where
  -- Provided that the environment and the salt are there, that the uuid is new, and that the
  -- pipeline leaves the snapshots alone and the catalogue valid: a backup prints how its pipeline
  -- ended, leaves a valid catalogue with the links of the snapshots that had not expired, and the snapshots are those that had not expired, and its own
  -- row, COMPLETED if the pipeline returned and FAILED with the text of the exception if it raised.
  pub backup_lem :
      (pipeline : World → Result String (Unit {0}) × World) (delete_objects : DeleteObjects)
      (passphrase : String) (bucket : Option String) (now : ℕ) (exc i tipo source : String)
      (dek_raw dek_nonce : List ℕ) (c : Catalogue) (salt : Setting) (s : Snapshot)
      (r : Result String (Unit {0})) (w : World)
      → is_missing (some passphrase) ≡ false
      → is_missing bucket ≡ false
      → setting_of "master_salt" c.configuracion ≡ some salt
      → some_of (has_id i) c.world.db.snapshots ≡ false
      → row_of encrypt utf8 (derive_kek passphrase salt.valor) now i tipo source dek_raw dek_nonce
        ≡ s
      → pipeline (with_row s c.world) ≡ (r, w)
      → w.db.snapshots ≡ c.world.db.snapshots ++ s ∷ []
      → IsValid w.db
      → let (e, left) =
          backup derive_kek encrypt decrypt sha256 utf8 pipeline delete_objects
            (some passphrase)
            bucket
            now
            exc
            i
            tipo
            source
            dek_raw
            dek_nonce
            c in
        (e ≡ echo_of i r) × HasFinished now r s c.world.db.snapshots w.db left.db
  unfolding backup insert_snapshot
  backup_lem pipeline delete_objects passphrase bucket now exc i tipo source dek_raw dek_nonce c
        salt s r w p b m n row run k v =
      rw (p, b, m, n, row, run)
        (
          after_pipeline_echo now i r w,
          finish_as delete_objects now exc i r s c.world.db.snapshots w (sym (ap (λ q. q.id) row)) k
              n v,
        )

-- What asyncio.run gives of a pipeline that has ended, with the text of its exception.
unfoldable pub end_of : String → Main → Option (Result String (Unit {0}))
end_of exc awaiting = none
end_of exc returned = some (ok tt)
end_of exc raised = some (err exc)

-- When a pipeline in which an upload raised has ended, in whatever order its tasks went on, the
-- upload's exception is lost: the snapshot is marked as COMPLETED, and the backup printed as done.
pub upload_raises_completed :
    (compress : List ℕ → List ℕ) (encrypt : Encrypt) (sha256 : List ℕ → String)
    (dek snapshot_id : List ℕ) (now : ℕ) (exc i : String) (w : World) {s t : Tasks}
    → s.shutdown ≡ true
    → s.main ≡ awaiting
    → Reach compress encrypt sha256 dek snapshot_id s t
    → t.main ≢ awaiting
    → Option.map (λ r. after_pipeline now i (r, w)) (end_of exc t.main)
      ≡ some (backup_done i, record w { db = update_snapshot i (set_completed now) w.db })
unfolding after_pipeline end_of
upload_raises_completed compress encrypt sha256 dek snapshot_id now exc i w {s} {t} d m run ended =
    by_end t.main ended (upload_raises_calm compress encrypt sha256 dek snapshot_id d m run)
  where
    by_end :
        (e : Main)
        → e ≢ awaiting
        → e ≢ raised
        → Option.map (λ r. after_pipeline now i (r, w)) (end_of exc e)
          ≡ some (backup_done i, record w { db = update_snapshot i (set_completed now) w.db })
    by_end awaiting ended calm = absurd (ended refl)
    by_end returned ended calm = refl
    by_end raised ended calm = absurd (calm refl)
