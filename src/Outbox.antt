-- ===== src/Outbox.antt =====
-- The transactional outbox of src/boveda/storage.py (init_outbox_schema, TransactionalOutbox,
-- drain_outbox_queue): its table, the staging directory and the bucket that it drains into. Times
-- are whole seconds. The id and the path that the
-- source makes of a uuid and of a SHA-256 are arguments, as is `uploader` for uploader_func.
pub mod Rows
pub mod Staged
pub mod Drained
pub mod Claims
use Prim.Native.String.{◌++◌ as text_append}
use boveda_pyme.Prelude.{
  is_some, ℕ, ◌+◌, ◌^◌, min, String, Bool, true, false, not, ◌&&◌, ◌||◌, Option, none, some, List,
  [], ◌∷◌, ◌++◌, str_eq, leb, if◌then◌else◌, take, select, some_of, Result, ok, err,
}
use boveda_pyme.Catalog.{update_where}
use boveda_pyme.Purge.{ObjectStore}

pub data OutboxChunkState : Type 0 where
  pending draining processed dead_letter : OutboxChunkState

abbrev pub is_pending : OutboxChunkState → Bool
is_pending pending = true
is_pending _ = false

abbrev pub is_draining : OutboxChunkState → Bool
is_draining draining = true
is_draining _ = false

abbrev pub is_processed : OutboxChunkState → Bool
is_processed processed = true
is_processed _ = false

-- The columns of outbox_chunks.
pub record OutboxChunk : Type 0 where
  pub id : String
  pub tenant_id : String
  pub storage_key : String
  pub payload_encrypted_path : String
  pub state : OutboxChunkState
  pub attempts : ℕ
  pub last_error : Option String
  pub created_at : ℕ
  pub updated_at : ℕ
  pub processed_at : Option ℕ
  pub next_retry_at : ℕ

-- The staging directory: the files by path.
abbrev pub Staging : Type 0
Staging = String → Option (List ℕ)

abbrev pub write_file : String → List ℕ → Staging → Staging
write_file p payload files q = if str_eq q p then some payload else files q

abbrev pub unlink : String → Staging → Staging
unlink p files q = if str_eq q p then none else files q

pub record Outbox : Type 0 where
  pub rows : List OutboxChunk
  pub files : Staging
  pub s3 : ObjectStore

-- `uploader_func`: `none` if it returned, or the text of what it raised.
abbrev pub Uploader : Type 0
Uploader = String → String → List ℕ → ObjectStore → Option String × ObjectStore

pub data OutboxError : Type 0 where
  file_exists write_failed integrity : OutboxError

abbrev pub has_id : String → OutboxChunk → Bool
has_id i r = str_eq r.id i

abbrev pub new_chunk : ℕ → String → String → String → String → OutboxChunk
new_chunk now i tenant key path = record {
  id = i;
  tenant_id = tenant;
  storage_key = key;
  payload_encrypted_path = path;
  state = pending;
  attempts = 0;
  last_error = none;
  created_at = now;
  updated_at = now;
  processed_at = none;
  next_retry_at = now;
}

-- `enqueue_chunk`, for the uuid and the path that it made. O_EXCL refuses a file that is there;
-- `written` is whether the write and the fsync returned.
unfoldable pub enqueue_chunk :
    Bool
    → ℕ
    → String
    → String
    → String
    → String
    → List ℕ
    → Outbox
    → Result OutboxError String × Outbox
enqueue_chunk written now i path tenant key payload box =
    let staged = write_file path payload box.files in
    let undone = record box { files = unlink path staged } in
    if is_some (box.files path)
    then (err file_exists, box)
    else (if not written
        then (err write_failed, undone)
        else (if some_of (has_id i) box.rows then (err integrity, undone) else (
          ok i,
          record box { rows = box.rows ++ new_chunk now i tenant key path ∷ []; files = staged },
        )))

-- The WHERE of the claim.
unfoldable pub is_claimable : ℕ → OutboxChunk → Bool
is_claimable now r =
    (is_pending r.state && leb r.next_retry_at now)
    || (is_draining r.state && leb (r.updated_at + 900) now)

-- ORDER BY created_at ASC
unfoldable pub insert_by_created : OutboxChunk → List OutboxChunk → List OutboxChunk
insert_by_created r [] = r ∷ []
insert_by_created r (q ∷ rows) =
    let rest = insert_by_created r rows in
    if leb r.created_at q.created_at then r ∷ q ∷ rows else q ∷ rest

unfoldable pub order_by_created : List OutboxChunk → List OutboxChunk
unfolding insert_by_created
order_by_created [] = []
order_by_created (r ∷ rows) = insert_by_created r (order_by_created rows)

unfoldable pub claimed : ℕ → ℕ → List OutboxChunk → List OutboxChunk
unfolding is_claimable order_by_created
claimed now max_items rows = take max_items (order_by_created (select (is_claimable now) rows))

abbrev pub is_listed : List OutboxChunk → OutboxChunk → Bool
is_listed items r = some_of (λ q. str_eq q.id r.id) items

abbrev pub set_draining : ℕ → OutboxChunk → OutboxChunk
set_draining now r = record r { state = draining; updated_at = now }

-- The first transaction: the rows that it read, and the table with these rows DRAINING.
unfoldable pub claim : ℕ → ℕ → List OutboxChunk → List OutboxChunk × List OutboxChunk
unfolding claimed
claim now max_items rows =
    let items = claimed now max_items rows in
    (items, update_where (is_listed items) (set_draining now) rows)

abbrev pub set_processed : ℕ → OutboxChunk → OutboxChunk
set_processed now r = record r { state = processed; processed_at = some now; updated_at = now }

-- The handler for an exception with the text `exc`, at the attempts that were read.
unfoldable pub set_retry : ℕ → String → ℕ → OutboxChunk → OutboxChunk
set_retry now exc attempts r =
    let new_attempts = attempts + 1 in
    record r {
      state = if leb 10 new_attempts then dead_letter else pending;
      attempts = new_attempts;
      last_error = some exc;
      next_retry_at = now + min 3600 (2 ^ new_attempts);
      updated_at = now;
    }

unfoldable pub retry_later : ℕ → String → OutboxChunk → Outbox → Outbox
unfolding set_retry
retry_later now exc item box = record box {
  rows = update_where (has_id item.id) (set_retry now exc item.attempts) box.rows;
}

-- The two steps after an upload: the row first, then the file.
unfoldable pub confirm_processed : ℕ → OutboxChunk → Outbox → Outbox
confirm_processed now item box = record box {
  rows = update_where (has_id item.id) (set_processed now) box.rows;
  files = unlink item.payload_encrypted_path box.files;
}

abbrev pub after_upload : ℕ → OutboxChunk → Outbox → Option String × ObjectStore → ℕ × Outbox
after_upload now item box (none, s3) = (1, confirm_processed now item (record box { s3 = s3 }))
after_upload now item box (some exc, s3) = (0, retry_later now exc item (record box { s3 = s3 }))

-- One turn of the loop: what it adds to processed_count.
abbrev pub drain_file : Uploader → ℕ → OutboxChunk → Outbox → Option (List ℕ) → ℕ × Outbox
drain_file uploader now item box none = (
  0,
  retry_later now (text_append "Archivo de staging no encontrado: " item.payload_encrypted_path)
      item box,
)
drain_file uploader now item box (some payload) =
    after_upload now item box (uploader item.tenant_id item.storage_key payload box.s3)

unfoldable pub drain_item : Uploader → ℕ → OutboxChunk → Outbox → ℕ × Outbox
unfolding retry_later confirm_processed
drain_item uploader now item box =
    drain_file uploader now item box (box.files item.payload_encrypted_path)

unfoldable pub drain_items : Uploader → ℕ → List OutboxChunk → Outbox → ℕ × Outbox
unfolding drain_item
drain_items uploader now [] box = (0, box)
drain_items uploader now (item ∷ items) box =
    let (n, box') = drain_item uploader now item box in
    let (m, box'') = drain_items uploader now items box' in (n + m, box'')

-- drain_outbox_queue
unfoldable pub drain_outbox_queue : Uploader → ℕ → ℕ → Outbox → ℕ × Outbox
unfolding claim drain_items
drain_outbox_queue uploader now max_items box =
    let (items, rows) = claim now max_items box.rows in
    drain_items uploader now items (record box { rows = rows })
