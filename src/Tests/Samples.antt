-- ===== src/Tests/Samples.antt =====
-- A small catalogue and bucket, and what stands for the bucket's calls.
use boveda_pyme.Prelude.{
  ℕ, String, refl, true, false, none, some, [], ◌∷◌, arith, str_eq, if◌then◌else◌, some_of, List,
  ok, ◌≡◌,
}
use boveda_pyme.FastCdc.{Sizes, AreSizes}
use boveda_pyme.Restore.{Decrypt}
use boveda_pyme.Pipeline.{Encrypt, Upload, seal}
use boveda_pyme.Header.{NonceGenerator, next, create_chunk_header}
use boveda_pyme.Catalog.{
  Snapshot, ChunkPool, SnapshotChunk, Db, Estado, ChunkState, expired, completed, active,
  pending_delete,
}
use boveda_pyme.Catalog.Valid.{IsValid}
use boveda_pyme.Purge.{World, DeleteObjects}
use boveda_pyme.Backup.{PutObject}
use boveda_pyme.Backup.Purging.{DeletesOnly}

abbrev pub sample_snapshot : String → Estado → Snapshot
sample_snapshot i e = record {
  id = i;
  timestamp = 5;
  tipo = "DIARIO";
  estado = e;
  source_type = "cmd";
  source_identifier = "db-prod";
  total_chunks = none;
  uploaded_chunks = some 0;
  size_bytes_raw = none;
  size_bytes_stored = none;
  encrypted_dek = [];
  dek_nonce = [];
  dek_tag = [];
  multipart_upload_id = none;
  error_detail = none;
  created_at = 5;
  completed_at = none;
}

abbrev pub sample_row : String → String → ℕ → ChunkState → ChunkPool
sample_row h k n s = record {
  hash_sha256 = h;
  storage_key = k;
  size_compressed = 40;
  size_encrypted = 40;
  ref_count = n;
  state = s;
  first_seen_at = 5;
  last_referenced_at = 5;
  purge_scheduled_at = none;
}

abbrev pub sample_link : String → ℕ → String → SnapshotChunk
sample_link i n h = record {
  snapshot_id = i;
  chunk_seq = n;
  chunk_hash = h;
  etag = none;
  created_at = 5;
}

-- A completed and an expired snapshot, each with a chunk, and an orphan.
abbrev pub sample_db : Db
sample_db = record {
  snapshots = sample_snapshot "s1" completed ∷ sample_snapshot "s2" expired ∷ [];
  chunk_pool =
      sample_row "aa" "chunks/aa.bin" 1 active
      ∷ sample_row "bb" "chunks/bb.bin" 0 pending_delete
      ∷ sample_row "cc" "chunks/cc.bin" 1 active
      ∷ [];
  snapshot_chunks = sample_link "s1" 0 "aa" ∷ sample_link "s2" 0 "cc" ∷ [];
}

abbrev pub sample_world : World
sample_world = record { db = sample_db; s3 = λ k. some (7 ∷ []) }

pub sample_db-IsValid : IsValid sample_db
sample_db-IsValid = ground arith

abbrev pub put_sample : PutObject
put_sample k p s3 = (true, λ j. if str_eq j k then some p else s3 j)

-- An upload that raises and leaves the bucket as it was.
abbrev pub put_failing : PutObject
put_failing k p s3 = (false, s3)

abbrev pub delete_sample : DeleteObjects
delete_sample ks s3 = (true, λ k. if some_of (str_eq k) ks then none else s3 k)

pub delete_sample-DeletesOnly : DeletesOnly delete_sample
delete_sample-DeletesOnly = record { spares = λ ks s3 k e. ground arith }

-- A deletion that removes its keys and then raises.
abbrev pub delete_raising : DeleteObjects
delete_raising ks s3 = (false, λ k. if some_of (str_eq k) ks then none else s3 k)

pub delete_raising-DeletesOnly : DeletesOnly delete_raising
delete_raising-DeletesOnly = record { spares = λ ks s3 k e. ground arith }

abbrev pub sample_generator : NonceGenerator
sample_generator = record { prefix = 1 ∷ 2 ∷ 3 ∷ 4 ∷ []; counter = 0 }

-- A cipher that adds a tag of no bytes.
abbrev pub plain_encrypt : Encrypt
plain_encrypt k n p a = p

abbrev pub plain_decrypt : Decrypt
plain_decrypt k n c a = some c

abbrev pub sealed_snapshot : Snapshot
sealed_snapshot = record (sample_snapshot "s1" completed) { encrypted_dek = 9 ∷ 8 ∷ [] }

abbrev pub sealed_payload : List ℕ
sealed_payload =
    66 ∷ 86 ∷ 80 ∷ 77 ∷ 0 ∷ 1 ∷ 0 ∷ 0 ∷ 0 ∷ 0 ∷ 1 ∷ 2 ∷ 3 ∷ 4 ∷ 0 ∷ 0 ∷ 0 ∷ 0 ∷ 0 ∷ 0 ∷ 0 ∷ 0 ∷ 0
    ∷ 0 ∷ 0 ∷ 18 ∷ 5 ∷ 6 ∷ []

abbrev pub sample_upload : Upload
sample_upload = record { chunk_seq = 0; payload = sealed_payload; chunk_hash = "h" }

abbrev pub generator_after : NonceGenerator
generator_after = record sample_generator { counter = 1 }

pub seal_sample :
    seal (λ c. c) plain_encrypt (λ raw. "h") (9 ∷ 8 ∷ []) [] 0 sample_generator (5 ∷ 6 ∷ [])
    ≡ ok (sample_upload, generator_after)
unfolding seal next create_chunk_header
seal_sample = refl

-- Small sizes, and a table that is the byte itself.
abbrev pub small : Sizes
small = record {
  min_chunk_size = 2;
  avg_chunk_size = 4;
  max_chunk_size = 6;
  mask_strict = 3;
  mask_lax = 1;
}

pub small-AreSizes : AreSizes small
small-AreSizes = omega arith

abbrev pub gear : ℕ → ℕ
gear b = b
