-- ===== src/Migration.antt =====
-- The schema of the catalogue: the first migration of src/alembic
-- (versions/fcf1d9eebba1_initial_schema.py), and the tables that init_db of src/boveda/database.py
-- creates if they are missing. A schema is its tables; types and constraints are data. What Alembic
-- records of its revisions is left out.
pub mod Applied
use boveda_pyme.Prelude.{
  String, Bool, true, false, not, List, [], ◌∷◌, ◌++◌, select, some_of, str_eq, if◌then◌else◌,
  ◌>>=◌, ◌>>◌, raise_if, Result, ok, err,
}

pub data Kind : Type 0 where
  text date_time integer large_binary boolean : Kind

pub record Column : Type 0 where
  pub name : String
  pub kind : Kind
  pub nullable : Bool

pub data OnDelete : Type 0 where
  cascade restrict : OnDelete

pub record ForeignKey : Type 0 where
  pub column : String
  pub target : String
  pub on_delete : OnDelete

pub record Table : Type 0 where
  pub name : String
  pub columns : List Column
  pub primary_key : List String
  pub foreign_keys : List ForeignKey
  pub unique : List (List String)

pub data MigrationError : Type 0 where
  table_exists no_such_table : String → MigrationError

abbrev pub required : String → Kind → Column
required n k = record { name = n; kind = k; nullable = false }

abbrev pub optional : String → Kind → Column
optional n k = record { name = n; kind = k; nullable = true }

-- `configuracion` and `snapshots`, which the migration and the models share.
abbrev pub configuracion : Table
configuracion = record {
  name = "configuracion";
  columns = required "clave" text ∷ required "valor" text ∷ optional "es_secreto" boolean ∷ [];
  primary_key = "clave" ∷ [];
  foreign_keys = [];
  unique = [];
}

abbrev pub snapshots : Table
snapshots = record {
  name = "snapshots";
  columns =
      required "id" text
      ∷ required "timestamp" date_time
      ∷ required "tipo" text
      ∷ required "estado" text
      ∷ required "source_type" text
      ∷ required "source_identifier" text
      ∷ optional "total_chunks" integer
      ∷ optional "uploaded_chunks" integer
      ∷ optional "size_bytes_raw" integer
      ∷ optional "size_bytes_stored" integer
      ∷ required "encrypted_dek" large_binary
      ∷ required "dek_nonce" large_binary
      ∷ required "dek_tag" large_binary
      ∷ optional "multipart_upload_id" text
      ∷ optional "error_detail" text
      ∷ required "created_at" date_time
      ∷ optional "completed_at" date_time
      ∷ [];
  primary_key = "id" ∷ [];
  foreign_keys = [];
  unique = [];
}

abbrev pub bloques : Table
bloques = record {
  name = "bloques";
  columns =
      required "id" integer
      ∷ required "snapshot_id" text
      ∷ required "chunk_seq" integer
      ∷ required "hash_sha256" text
      ∷ required "size_compressed" integer
      ∷ required "size_encrypted" integer
      ∷ required "storage_key" text
      ∷ optional "etag" text
      ∷ [];
  primary_key = "id" ∷ [];
  foreign_keys = record { column = "snapshot_id"; target = "snapshots"; on_delete = cascade } ∷ [];
  unique = ("snapshot_id" ∷ "chunk_seq" ∷ []) ∷ [];
}

abbrev pub chunk_pool : Table
chunk_pool = record {
  name = "chunk_pool";
  columns =
      required "hash_sha256" text
      ∷ required "storage_key" text
      ∷ required "size_compressed" integer
      ∷ required "size_encrypted" integer
      ∷ required "ref_count" integer
      ∷ required "state" text
      ∷ required "first_seen_at" date_time
      ∷ required "last_referenced_at" date_time
      ∷ optional "purge_scheduled_at" date_time
      ∷ [];
  primary_key = "hash_sha256" ∷ [];
  foreign_keys = [];
  unique = ("storage_key" ∷ []) ∷ [];
}

abbrev pub snapshot_chunks : Table
snapshot_chunks = record {
  name = "snapshot_chunks";
  columns =
      required "snapshot_id" text
      ∷ required "chunk_seq" integer
      ∷ required "chunk_hash" text
      ∷ optional "etag" text
      ∷ required "created_at" date_time
      ∷ [];
  primary_key = "snapshot_id" ∷ "chunk_seq" ∷ [];
  foreign_keys =
      record { column = "snapshot_id"; target = "snapshots"; on_delete = cascade }
      ∷ record { column = "chunk_hash"; target = "chunk_pool"; on_delete = restrict }
      ∷ [];
  unique = [];
}

abbrev pub is_named : String → Table → Bool
is_named n t = str_eq t.name n

abbrev pub has_table : String → List Table → Bool
has_table n schema = some_of (is_named n) schema

unfoldable pub create_table : Table → List Table → Result MigrationError (List Table)
create_table t schema = do
  raise_if (has_table t.name schema) (table_exists t.name)
  ok (schema ++ t ∷ [])

unfoldable pub drop_table : String → List Table → Result MigrationError (List Table)
drop_table n schema = do
  raise_if (not (has_table n schema)) (no_such_table n)
  ok (select (λ t. not (is_named n t)) schema)

unfoldable pub upgrade : List Table → Result MigrationError (List Table)
unfolding create_table
upgrade schema =
    create_table configuracion schema >>= create_table snapshots >>= create_table bloques

unfoldable pub downgrade : List Table → Result MigrationError (List Table)
unfolding drop_table
downgrade schema =
    drop_table "bloques" schema >>= drop_table "snapshots" >>= drop_table "configuracion"

-- `Base.metadata.create_all(engine)`: the tables of the models that are not there yet.
unfoldable pub create_missing : Table → List Table → List Table
create_missing t schema = if has_table t.name schema then schema else schema ++ t ∷ []

unfoldable pub create_all : List Table → List Table
unfolding create_missing
create_all schema =
    create_missing configuracion
      (create_missing snapshot_chunks (create_missing chunk_pool (create_missing snapshots schema)))
