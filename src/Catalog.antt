-- ===== src/Catalog.antt =====
-- The catalogue of src/boveda/database.py: the statements that the program runs on its tables, with
-- the keys, the foreign keys and the triggers (TRIGGERS_DDL) that SQLite applies to them.
mod Rows
pub mod Refs
pub mod Valid
pub mod Pool
pub mod Statements
pub use Rows.*
use boveda_pyme.Prelude.{
  ℕ, ◌+◌, ◌-◌, String, Bool, true, false, not, ◌&&◌, ◌||◌, Option, none, some, List, [], ◌∷◌, ◌++◌,
  ltb, ◌==◌, if◌then◌else◌, str_eq, Result, ok, err, ◌>>=◌, ◌>>◌, raise_if, select, some_of,
}

-- What SQLite raises: a constraint, or the RAISE(ABORT) of a trigger.
pub data SqlError : Type 0 where
  integrity abort operational : SqlError

-- UPDATE … SET … WHERE …
abbrev pub update_where {ℓ} : {A : Type ℓ} → (A → Bool) → (A → A) → List A → List A
update_where p f [] = []
update_where p f (x ∷ xs) = (if p x then f x else x) ∷ update_where p f xs

abbrev pub has_hash : String → ChunkPool → Bool
has_hash h r = str_eq r.hash_sha256 h

abbrev pub has_id : String → Snapshot → Bool
has_id i s = str_eq s.id i

abbrev pub of_snapshot : String → SnapshotChunk → Bool
of_snapshot i l = str_eq l.snapshot_id i

abbrev pub links_hash : String → SnapshotChunk → Bool
links_hash h l = str_eq l.chunk_hash h

-- The SET of trg_snapshot_chunks_after_insert.
unfoldable pub on_link : ℕ → ChunkPool → ChunkPool
on_link now r = record r {
  ref_count = r.ref_count + 1;
  state = active;
  last_referenced_at = now;
  purge_scheduled_at = none;
}

-- The SET of trg_snapshot_chunks_after_delete. `ref_count - 1 = 0` is an integer comparison.
unfoldable pub on_unlink : ℕ → ChunkPool → ChunkPool
on_unlink now r = record r {
  ref_count = if ltb 0 r.ref_count then r.ref_count - 1 else 0;
  state = if r.ref_count == 1 then pending_delete else r.state;
  purge_scheduled_at = if r.ref_count == 1 then some now else r.purge_scheduled_at;
}

abbrev pub after_insert : ℕ → String → List ChunkPool → List ChunkPool
after_insert now h pool = update_where (has_hash h) (on_link now) pool

abbrev pub after_delete : ℕ → String → List ChunkPool → List ChunkPool
after_delete now h pool = update_where (has_hash h) (on_unlink now) pool

-- Whether a link has the primary key of another.
abbrev pub is_taken : SnapshotChunk → Db → Bool
is_taken l db =
    some_of (λ k. of_snapshot l.snapshot_id k && (k.chunk_seq == l.chunk_seq)) db.snapshot_chunks

abbrev pub lacks_owner : SnapshotChunk → Db → Bool
lacks_owner l db = not (some_of (has_id l.snapshot_id) db.snapshots)

abbrev pub lacks_row : SnapshotChunk → Db → Bool
lacks_row l db = not (some_of (has_hash l.chunk_hash) db.chunk_pool)

-- The new row, and the pool after the trigger.
abbrev pub with_link : ℕ → SnapshotChunk → Db → Db
with_link now l db = record db {
  snapshot_chunks = db.snapshot_chunks ++ l ∷ [];
  chunk_pool = after_insert now l.chunk_hash db.chunk_pool;
}

-- INSERT INTO snapshot_chunks: the primary key, the two foreign keys, then the trigger.
unfoldable pub insert_link : ℕ → SnapshotChunk → Db → Result SqlError Db
insert_link now l db = do
  raise_if (is_taken l db) integrity
  raise_if (lacks_owner l db) integrity
  raise_if (lacks_row l db) integrity
  ok (with_link now l db)

-- DELETE FROM snapshot_chunks WHERE …, row by row: what is kept, and the pool after the triggers.
unfoldable pub unlink_where :
    ℕ
    → (SnapshotChunk → Bool)
    → List SnapshotChunk
    → List ChunkPool
    → List SnapshotChunk × List ChunkPool
unlink_where now p [] pool = ([], pool)
unlink_where now p (l ∷ ls) pool =
    let (kept, pool') =
      unlink_where now p ls (if p l then after_delete now l.chunk_hash pool else pool) in
    (if p l then kept else l ∷ kept, pool')

unfoldable pub delete_links : ℕ → String → Db → Db
delete_links now i db =
    let (kept, pool) = unlink_where now (of_snapshot i) db.snapshot_chunks db.chunk_pool in
    record db { snapshot_chunks = kept; chunk_pool = pool }

-- UPDATE snapshot_chunks: trg_snapshot_chunks_prevent_update refuses every row.
unfoldable pub update_links :
    (SnapshotChunk → Bool) → (SnapshotChunk → SnapshotChunk) → Db → Result SqlError Db
update_links p f db = do raise_if (some_of p db.snapshot_chunks) abort; ok db

-- The WHEN of trg_snapshots_prevent_unauthorized_delete.
abbrev pub is_protected : String → Db → Bool
is_protected i db =
    some_of (λ s. has_id i s && (is_completed s.estado || is_running s.estado)) db.snapshots

-- DELETE FROM snapshots WHERE id = …: the trigger, and the cascade to the links.
unfoldable pub delete_snapshot : ℕ → String → Db → Result SqlError Db
unfolding delete_links
delete_snapshot now i db = do
  raise_if (is_protected i db) abort
  let db' = delete_links now i db
  ok (record db' { snapshots = select (λ s. not (has_id i s)) db'.snapshots })

-- UPDATE of `estado` and the columns that no trigger guards, by primary key.
unfoldable pub update_snapshot : String → (Snapshot → Snapshot) → Db → Db
update_snapshot i f db = record db { snapshots = update_where (has_id i) f db.snapshots }

-- The WHEN of trg_chunk_pool_prevent_active_delete, for some row that is to go.
abbrev pub is_in_use : (ChunkPool → Bool) → Db → Bool
is_in_use p db = some_of (λ r. p r && (ltb 0 r.ref_count || is_active r.state)) db.chunk_pool

abbrev pub is_linked : (ChunkPool → Bool) → Db → Bool
is_linked p db =
    some_of (λ r. p r && some_of (links_hash r.hash_sha256) db.snapshot_chunks) db.chunk_pool

-- DELETE FROM chunk_pool WHERE …: the trigger, then ON DELETE RESTRICT.
unfoldable pub delete_pool : (ChunkPool → Bool) → Db → Result SqlError Db
delete_pool p db = do
  raise_if (is_in_use p db) abort
  raise_if (is_linked p db) integrity
  ok (record db { chunk_pool = select (λ r. not (p r)) db.chunk_pool })
