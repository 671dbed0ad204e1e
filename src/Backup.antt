-- ===== src/Backup.antt =====
-- The upload of one chunk by `boveda backup` (upload_callback of src/boveda/cli.py), against the
-- catalogue and the bucket. The first transaction commits before the upload, so that what it wrote
-- stays written when the upload fails. `put_object` stands for upload_to_s3 with its retries, and
-- `begins` is whether the engine of the sessions begins their transactions itself, which the engines
-- of src/boveda/database.py do (Engines).
pub mod Rows
pub mod Purging
pub mod Sound
pub mod Link
pub mod Upload
pub mod Run
use boveda_pyme.Prelude.{
  ℕ, ◌-◌, String, Bool, true, false, ◌||◌, none, some, List, [], ◌∷◌, ◌++◌, str_eq, if◌then◌else◌,
  length, some_of, first_such, ◌>>=◌, ◌>>◌, raise_if, Result, ok, err, Option,
}
use Prim.Native.String.{◌++◌ as text_append}
use boveda_pyme.Catalog.{
  ChunkPool, SnapshotChunk, Db, SqlError, integrity, operational, active, is_pending_delete,
  is_purging_s3, has_hash, update_where, insert_link,
}
use boveda_pyme.Purge.{ObjectStore, World}

-- `upload_to_s3`: whether it returned, and the bucket that it left.
abbrev pub PutObject : Type 0
PutObject = String → List ℕ → ObjectStore → Bool × ObjectStore

pub data UploadError : Type 0 where
  sql : SqlError → UploadError
  s3_failed : UploadError

-- f"chunks/{c_hash}.bin"
unfoldable pub chunk_key : String → String
chunk_key h = text_append "chunks/" (text_append h ".bin")

abbrev pub has_key : String → ChunkPool → Bool
has_key k r = str_eq r.storage_key k

unfoldable pub new_pool : ℕ → String → List ℕ → ChunkPool
unfolding chunk_key
new_pool now h payload = record {
  hash_sha256 = h;
  storage_key = chunk_key h;
  size_compressed = length payload - 26;
  size_encrypted = length payload - 26;
  ref_count = 0;
  state = active;
  first_seen_at = now;
  last_referenced_at = now;
  purge_scheduled_at = none;
}

-- INSERT INTO chunk_pool: the primary key, and the unique storage key.
unfoldable pub insert_pool : ChunkPool → Db → Result SqlError Db
insert_pool r db = do
  raise_if (some_of (has_hash r.hash_sha256) db.chunk_pool) integrity
  raise_if (some_of (has_key r.storage_key) db.chunk_pool) integrity
  ok (record db { chunk_pool = db.chunk_pool ++ r ∷ [] })

-- `pool_entry.state = ACTIVE` and `purge_scheduled_at = None`, if the chunk was about to go.
unfoldable pub reactivate : ChunkPool → ChunkPool
reactivate r =
    if is_pending_delete r.state || is_purging_s3 r.state
    then record r { state = active; purge_scheduled_at = none }
    else r

-- BEGIN IMMEDIATE, which SQLite refuses within a transaction.
unfoldable pub begin_immediate : Bool → Result SqlError Bool
begin_immediate true = err operational
begin_immediate false = ok true

-- `local_session.execute(text("BEGIN IMMEDIATE"))`, the first statement of a session: before it
-- SQLAlchemy begins a transaction, and calls what listens for that.
unfoldable pub execute_begin : Bool → Result SqlError Bool
unfolding begin_immediate
execute_begin begins = do
  in_transaction ← if begins then begin_immediate false else ok false
  begin_immediate in_transaction

-- `_db_check_and_prepare`, by what the query for the row found: the storage key, and whether to
-- upload.
unfoldable pub prepare_entry :
    ℕ → String → List ℕ → Db → Option ChunkPool → Result SqlError (String × Bool × Db)
unfolding new_pool insert_pool reactivate
prepare_entry now h payload db none = do
  db' ← insert_pool (new_pool now h payload) db
  ok (chunk_key h, true, db')
prepare_entry now h payload db (some r) = ok (
  r.storage_key,
  is_purging_s3 r.state,
  record db { chunk_pool = update_where (has_hash h) reactivate db.chunk_pool },
)

unfoldable pub prepare : Bool → ℕ → String → List ℕ → Db → Result SqlError (String × Bool × Db)
unfolding execute_begin prepare_entry
prepare begins now h payload db = do
  _ ← execute_begin begins
  prepare_entry now h payload db (first_such (has_hash h) db.chunk_pool)

abbrev pub new_link : ℕ → String → ℕ → String → SnapshotChunk
new_link now i seq h = record {
  snapshot_id = i;
  chunk_seq = seq;
  chunk_hash = h;
  etag = none;
  created_at = now;
}

-- What the session leaves after the second transaction.
abbrev pub settle_link : World → Result SqlError Db → Result UploadError (Unit {0}) × World
settle_link w (ok db) = (ok tt, record w { db = db })
settle_link w (err e) = (err (sql e), w)

-- `_save_chunk_ref`, in a transaction of its own.
unfoldable pub save_chunk_ref :
    Bool → ℕ → String → ℕ → String → World → Result UploadError (Unit {0}) × World
unfolding execute_begin
save_chunk_ref begins now i seq h w =
    settle_link w (execute_begin begins >>= λ _. insert_link now (new_link now i seq h) w.db)

-- `await upload_to_s3(…)` if the chunk is new, then the link.
unfoldable pub upload_and_link :
    Bool
    → PutObject
    → ℕ
    → String
    → ℕ
    → List ℕ
    → String
    → String × Bool × Db
    → ObjectStore
    → Result UploadError (Unit {0}) × World
unfolding save_chunk_ref
upload_and_link begins put_object now i seq payload h (key, true, db) s3 =
    let (uploaded, s3') = put_object key payload s3 in
    let w : World = record { db = db; s3 = s3' } in
    if uploaded then save_chunk_ref begins now i seq h w else (err s3_failed, w)
upload_and_link begins put_object now i seq payload h (key, false, db) s3 =
    save_chunk_ref begins now i seq h (record { db = db; s3 = s3 })

abbrev pub after_prepare :
    (String × Bool × Db → Result UploadError (Unit {0}) × World)
    → World
    → Result SqlError (String × Bool × Db)
    → Result UploadError (Unit {0}) × World
after_prepare f w (ok prepared) = f prepared
after_prepare f w (err e) = (err (sql e), w)

unfoldable pub upload_callback :
    Bool
    → PutObject
    → ℕ
    → String
    → ℕ
    → List ℕ
    → String
    → World
    → Result UploadError (Unit {0}) × World
unfolding prepare upload_and_link
upload_callback begins put_object now i seq payload h w =
    after_prepare (λ p. upload_and_link begins put_object now i seq payload h p w.s3) w
      (prepare begins now h payload w.db)
