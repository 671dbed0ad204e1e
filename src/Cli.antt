-- ===== src/Cli.antt =====
-- The commands of src/boveda/cli.py, over the catalogue with its table of settings and the bucket.
-- What a command prints is a value of Echo. The environment, the clock, the uuid, the random bytes,
-- Argon2 (`derive_kek`), AES-GCM, SHA-256 and UTF-8 are arguments, and so is `pipeline`, the run of
-- streaming_pipeline with the upload callback: the text of what it raised, and the world it left.
pub mod Finish
pub mod Verify
pub mod Run
pub mod Sound
pub mod Rotate
use boveda_pyme.Prelude.{
  ℕ, ◌+◌, String, Bool, true, false, not, ◌&&◌, ◌||◌, Option, none, some, List, [], ◌∷◌, ◌++◌, map,
  str_eq, leb, ◌==◌, if◌then◌else◌, length, select, some_of, first_such, ◌>>=◌, ◌>>◌, raise_if,
  Result, ok, err,
}
use boveda_pyme.Catalog.{
  Snapshot, SnapshotChunk, ChunkPool, Db, SqlError, integrity, running, completed, failed,
  is_completed, has_id, has_hash, of_snapshot, update_snapshot, update_where,
}
use boveda_pyme.Purge.{World, ObjectStore, DeleteObjects}
use boveda_pyme.Retention.{purge_expired_snapshots}
use boveda_pyme.Pipeline.{Encrypt}
use boveda_pyme.Restore.{Bloque, Decrypt, RestoreError, sort_by_seq, restore_snapshot}
use boveda_pyme.Rotation.{with_dek, rotate_kek}

-- The table `configuracion`.
pub record Setting : Type 0 where
  pub clave : String
  pub valor : String
  pub es_secreto : Bool

pub record Catalogue : Type 0 where
  pub world : World
  pub configuracion : List Setting

pub data Echo : Type 0 where
  already_initialised initialised init_error : Echo
  no_environment no_salt no_snapshot no_chunks no_bucket no_mode : Echo
  backup_done backup_failed : String → Echo
  general_error : Echo
  restored : Echo
  restore_error : RestoreError → Echo
  verified corrupt : Echo
  rotated : ℕ → Echo
  rotation_error : Echo

abbrev pub has_clave : String → Setting → Bool
has_clave k c = str_eq c.clave k

abbrev pub setting_of : String → List Setting → Option Setting
setting_of k cs = first_such (has_clave k) cs

-- The environment: a variable that is unset or empty is missing.
abbrev pub is_missing : Option String → Bool
is_missing none = true
is_missing (some t) = str_eq t ""

unfoldable pub insert_setting : Setting → List Setting → Result SqlError (List Setting)
insert_setting c cs = do raise_if (some_of (has_clave c.clave) cs) integrity; ok (cs ++ c ∷ [])

abbrev pub settle_init : List Setting → Result SqlError (List Setting) → Echo × List Setting
settle_init old (ok cs) = (initialised, cs)
settle_init old (err e) = (init_error, old)

-- `init`
unfoldable pub init : String → List Setting → Echo × List Setting
unfolding insert_setting
init salt_b64 cs = elim (setting_of "master_salt" cs) as (λ _. Echo × List Setting) [
  | some _ ↦ (already_initialised, cs)
  | none ↦ settle_init cs (do
    cs' ← insert_setting (record { clave = "master_salt"; valor = salt_b64; es_secreto = false }) cs
    insert_setting
        (record {
          clave = "argon2_params";
          valor = "{\"t\": 3, \"m\": 65536, \"p\": 4}";
          es_secreto = false;
        })
        cs')
]

-- ORDER BY timestamp DESC
unfoldable pub insert_by_timestamp : Snapshot → List Snapshot → List Snapshot
insert_by_timestamp s [] = s ∷ []
insert_by_timestamp s (q ∷ ss) =
    let rest = insert_by_timestamp s ss in
    if leb q.timestamp s.timestamp then s ∷ q ∷ ss else q ∷ rest

unfoldable pub order_by_timestamp : List Snapshot → List Snapshot
unfolding insert_by_timestamp
order_by_timestamp [] = []
order_by_timestamp (s ∷ ss) = insert_by_timestamp s (order_by_timestamp ss)

-- `list`: the snapshots that it prints.
unfoldable pub list_snapshots : Db → List Snapshot
unfolding order_by_timestamp
list_snapshots db = order_by_timestamp (select (λ s. is_completed s.estado) db.snapshots)

-- `storage_key`, `size_encrypted` and `hash_sha256` of a link, by its row in the pool.
abbrev pub chunk_entry : List ChunkPool → SnapshotChunk → Option ChunkPool
chunk_entry pool l = first_such (has_hash l.chunk_hash) pool

abbrev pub entry_key : Option ChunkPool → String
entry_key none = ""
entry_key (some r) = r.storage_key

abbrev pub entry_size : Option ChunkPool → ℕ
entry_size none = 0
entry_size (some r) = r.size_encrypted

abbrev pub storage_key_of : List ChunkPool → SnapshotChunk → String
storage_key_of pool l = entry_key (chunk_entry pool l)

abbrev pub bloque_of_link : List ChunkPool → SnapshotChunk → Bloque
bloque_of_link pool l = record {
  chunk_seq = l.chunk_seq;
  storage_key = storage_key_of pool l;
  hash_sha256 = l.chunk_hash;
}

unfoldable pub bloques_of : String → Db → List Bloque
bloques_of i db =
    sort_by_seq (map (bloque_of_link db.chunk_pool) (select (of_snapshot i) db.snapshot_chunks))

-- The query for a snapshot and the test of its state.
abbrev pub completed_snapshot : String → Db → Option Snapshot
completed_snapshot i db = elim (first_such (has_id i) db.snapshots) [
  | none ↦ none
  | some s ↦ if is_completed s.estado then some s else none
]

-- The columns that the INSERT of `backup` sets, and the defaults of the others.
abbrev pub new_snapshot : ℕ → String → String → String → List ℕ → List ℕ → Snapshot
new_snapshot now i tipo source ciphertext dek_nonce = with_dek ciphertext dek_nonce (record {
  id = i;
  timestamp = now;
  tipo = tipo;
  estado = running;
  source_type = "cmd";
  source_identifier = source;
  total_chunks = none;
  uploaded_chunks = some 0;
  size_bytes_raw = none;
  size_bytes_stored = none;
  encrypted_dek = [];
  dek_nonce = [];
  dek_tag = [];
  multipart_upload_id = none;
  error_detail = none;
  created_at = now;
  completed_at = none;
})

unfoldable pub insert_snapshot : Snapshot → Db → Result SqlError Db
insert_snapshot s db = do
  raise_if (some_of (has_id s.id) db.snapshots) integrity
  ok (record db { snapshots = db.snapshots ++ s ∷ [] })

abbrev pub set_completed : ℕ → Snapshot → Snapshot
set_completed now s = record s { estado = completed; completed_at = some now }

abbrev pub set_failed : String → Snapshot → Snapshot
set_failed detail s = record s { estado = failed; error_detail = some detail }

-- The `try` around the pipeline.
unfoldable pub after_pipeline : ℕ → String → Result String (Unit {0}) × World → Echo × World
after_pipeline now i (ok _, w) =
    (backup_done i, record w { db = update_snapshot i (set_completed now) w.db })
after_pipeline now i (err exc, w) =
    (backup_failed i, record w { db = update_snapshot i (set_failed exc) w.db })

abbrev pub then_purge : DeleteObjects → ℕ → String → Echo × World → Echo × World
then_purge delete_objects now exc (e, w) = (e, purge_expired_snapshots delete_objects now exc w)

-- generate_dek_for_snapshot of src/boveda/crypto.py: the ciphertext with its tag.
unfoldable pub generate_dek_for_snapshot :
    Encrypt → (String → List ℕ) → List ℕ → String → List ℕ → List ℕ → List ℕ
generate_dek_for_snapshot encrypt utf8 kek i dek_raw dek_nonce =
    encrypt kek dek_nonce dek_raw (utf8 i)

-- The row that `backup` inserts.
abbrev pub row_of :
    Encrypt → (String → List ℕ) → List ℕ → ℕ → String → String → String → List ℕ → List ℕ → Snapshot
row_of encrypt utf8 kek now i tipo source dek_raw dek_nonce =
    new_snapshot now i tipo source (generate_dek_for_snapshot encrypt utf8 kek i dek_raw dek_nonce)
      dek_nonce

module _ (derive_kek : String → String → List ℕ) (encrypt : Encrypt) (decrypt : Decrypt)
    (sha256 : List ℕ → String) (utf8 : String → List ℕ) where
  abbrev pub run_backup :
      (World → Result String (Unit {0}) × World)
      → DeleteObjects
      → ℕ
      → String
      → String
      → World
      → Result SqlError Db
      → Echo × World
  run_backup pipeline delete_objects now exc i w (err e) = (general_error, w)
  run_backup pipeline delete_objects now exc i w (ok db) =
      then_purge delete_objects now exc (after_pipeline now i (pipeline (record w { db = db })))

  -- `backup`
  unfoldable pub backup :
      (World → Result String (Unit {0}) × World)
      → DeleteObjects
      → Option String
      → Option String
      → ℕ
      → String
      → String
      → String
      → String
      → List ℕ
      → List ℕ
      → Catalogue
      → Echo × World
  unfolding insert_snapshot after_pipeline generate_dek_for_snapshot
  backup pipeline delete_objects none bucket now exc i tipo source dek_raw dek_nonce c =
      (no_environment, c.world)
  backup pipeline delete_objects (some passphrase) bucket now exc i tipo source dek_raw dek_nonce
        c =
      let started = λ (salt : Setting).
        let kek = derive_kek passphrase salt.valor in
        let s = row_of encrypt utf8 kek now i tipo source dek_raw dek_nonce in
        run_backup pipeline delete_objects now exc i c.world (insert_snapshot s c.world.db) in
      if is_missing (some passphrase) || is_missing bucket
      then (no_environment, c.world)
      else elim (setting_of "master_salt" c.configuracion) as (λ _. Echo × World) [
        | none ↦ (no_salt, c.world)
        | some salt ↦ started salt
      ]

  abbrev pub echo_restore : Result RestoreError (Unit {0}) × List (List ℕ) → Echo × List (List ℕ)
  echo_restore (ok _, written) = (restored, written)
  echo_restore (err e, written) = (restore_error e, written)

  -- `restore`: what is written to the decompressor.
  unfoldable pub restore : String → String → Catalogue → Echo × List (List ℕ)
  restore passphrase i c = elim (completed_snapshot i c.world.db) as (λ _. Echo × List (List ℕ)) [
    | none ↦ (no_snapshot, [])
    | some s ↦ elim (setting_of "master_salt" c.configuracion) as (λ _. Echo × List (List ℕ)) [
      | none ↦ (no_salt, [])
      | some salt ↦ echo_restore (
          restore_snapshot decrypt sha256 utf8 c.world.s3 s (derive_kek passphrase salt.valor) true
            (bloques_of i c.world.db))
    ]
  ]
