-- ===== src/Catalog/Rows.antt =====
-- The tables of src/boveda/database.py (Snapshot, ChunkPool, SnapshotChunk). Times are whole
-- ticks, and hashes, ids and keys are strings, as in the schema.
use boveda_pyme.Prelude.{ℕ, String, Option, List, Bool, true, false}

-- The texts that the column `estado` takes, and any other text.
pub data Estado : Type 0 where
  pending running completed expired purging purged purge_failed failed cleanup : Estado
  other : String → Estado

pub data ChunkState : Type 0 where
  active pending_delete purging_s3 corrupt : ChunkState

pub record Snapshot : Type 0 where
  pub id : String
  pub timestamp : ℕ
  pub tipo : String
  pub estado : Estado
  pub source_type : String
  pub source_identifier : String
  pub total_chunks : Option ℕ
  pub uploaded_chunks : Option ℕ
  pub size_bytes_raw : Option ℕ
  pub size_bytes_stored : Option ℕ
  pub encrypted_dek : List ℕ
  pub dek_nonce : List ℕ
  pub dek_tag : List ℕ
  pub multipart_upload_id : Option String
  pub error_detail : Option String
  pub created_at : ℕ
  pub completed_at : Option ℕ

pub record ChunkPool : Type 0 where
  pub hash_sha256 : String
  pub storage_key : String
  pub size_compressed : ℕ
  pub size_encrypted : ℕ
  pub ref_count : ℕ
  pub state : ChunkState
  pub first_seen_at : ℕ
  pub last_referenced_at : ℕ
  pub purge_scheduled_at : Option ℕ

pub record SnapshotChunk : Type 0 where
  pub snapshot_id : String
  pub chunk_seq : ℕ
  pub chunk_hash : String
  pub etag : Option String
  pub created_at : ℕ

pub record Db : Type 0 where
  pub snapshots : List Snapshot
  pub chunk_pool : List ChunkPool
  pub snapshot_chunks : List SnapshotChunk

-- `estado == …` and `state == …`
abbrev pub is_completed : Estado → Bool
is_completed completed = true
is_completed _ = false

abbrev pub is_running : Estado → Bool
is_running running = true
is_running _ = false

abbrev pub is_expired : Estado → Bool
is_expired expired = true
is_expired _ = false

abbrev pub is_active : ChunkState → Bool
is_active active = true
is_active _ = false

abbrev pub is_pending_delete : ChunkState → Bool
is_pending_delete pending_delete = true
is_pending_delete _ = false

abbrev pub is_purging_s3 : ChunkState → Bool
is_purging_s3 purging_s3 = true
is_purging_s3 _ = false
