-- ===== src/Lib.antt =====
-- Verification of Bóveda PyME, a backup service: a snapshot is a stream of content-defined chunks,
-- compressed and encrypted, that are stored once in an S3 bucket and counted by reference in an
-- SQL catalogue.
--
-- The parts and how they interact. A backup (src/boveda/cli.py) cuts its input with FastCDC
-- (src/boveda/fastcdc.py), and uploads each chunk with a callback that works on the catalogue
-- (src/boveda/database.py) and the bucket. Triggers of the catalogue count the links of each chunk
-- and move a chunk without links to PENDING_DELETE. The retention run (src/boveda/retention.py)
-- deletes expired snapshots with their links, and the two-phase purge then removes the objects and
-- rows that nothing references. Independently of it, a router (src/boveda/circuit_breaker.py)
-- sends chunks to a primary and a secondary cloud behind circuit breakers and at last to the
-- outbox.
--
-- Prelude: Boolean tests on native numbers, lists (Prelude.Lists), results and their guards
-- (Prelude.Results), text equality; Prelude.Tests holds the tests.
--
-- Catalog: the tables snapshots, chunk_pool and snapshot_chunks of src/boveda/database.py as lists
-- of records (Catalog.Rows), the statements with the triggers that they fire, as functions into a
-- result; Catalog.Refs and Catalog.Valid hold the reference counts and the invariant IsValid,
-- Catalog.Statements that the statements keep it.
--
-- Purge: execute_two_phase_purge of src/boveda/retention.py, one function for each transaction
-- (phase_1, phase_2) around the parameter delete_objects. Purge.Batch, Purge.Phases and
-- Purge.Safety follow the batch through both phases. A purge takes the batch size as an argument;
-- the run of Retention uses the source's 500.
--
-- Retention: purge_expired_snapshots of src/boveda/retention.py, with its handler for exceptions;
-- Retention.Sound and Retention.Backed follow the catalogue and the bucket through it,
-- Retention.Spared one snapshot.
--
-- Backup: upload_callback of src/boveda/cli.py, its two transactions and the upload between them
-- around the parameter put_object. Each transaction executes BEGIN IMMEDIATE; whether the engine
-- has begun it before so is a parameter, which Engines gives: the listener do_begin of
-- src/boveda/database.py does (Engines.Begins), and SQLite then refuses the second one. What is
-- asked of the object of a row is a parameter of the invariants IsSound of Backup.Sound and
-- IsBacked of Backup.Purging. Backup.Run: the uploads of a whole backup, one after the other in
-- the order of the chunks; Backup.Run.Spared covers both kinds of engine, and Backup.Upload and
-- Backup.Link what the body of the callback does on one that begins nothing.
--
-- Breaker: CircuitBreaker and MultiCloudStorageRouter of src/boveda/circuit_breaker.py. A call is
-- the step that enters under the lock and the step that records its end, so that calls interleave
-- (Breaker.Steps); times are whole ticks of one clock.
--
-- FastCdc: find_fastcdc_boundary_rolling and FastCDCStreamer.feed of src/boveda/fastcdc.py. The
-- loop of feed runs on fuel, a round for each byte of the buffer and one more, and FastCdc.Feed
-- shows that this is enough. The gear table, which the source fills from SHA-256, is a parameter.
--
-- Fsm: VALID_TRANSITIONS and transition_snapshot of src/boveda/fsm.py, and the status changes of
-- cleanup_in_progress_snapshots (src/boveda/storage.py).
--
-- Outbox: enqueue_chunk and drain_outbox_queue of src/boveda/storage.py over the table
-- outbox_chunks, the staging directory and the bucket, with the uploader as a parameter and times
-- in whole seconds. Outbox.Drained follows each chunk through a drain, Outbox.Claims compares two
-- claims. Its functions get their engine as an argument and are modelled on one that does not
-- begin transactions itself, which is what the repository's tests give them.
--
-- Header: the nonce counter and the chunk headers of src/boveda/crypto.py, bytes as numbers;
-- Derive: its derived keys and associated data. Pipeline: the writer of src/boveda/engine.py
-- (compress_encrypt_upload), its chunks in order. Pipeline.Source: the chunks that read_source
-- puts in the queue. Pipeline.Tasks: the reader, the writer, the upload that holds the semaphore
-- and streaming_pipeline itself as tasks; a step is what one of them does between two waits, with
-- a queue of one item, one upload at a time, and the shutdown event, and the process of the source
-- may refuse to start and may or may not exit; Pipeline.Tasks.Complete, Pipeline.Tasks.Progress
-- and Pipeline.Tasks.Ends follow every interleaving. Restore: restore_snapshot of
-- src/boveda/restore.py; Restore.RoundTrip puts the writer and it together, Restore.EndToEnd the
-- whole way from the reads of the source. The compressor, AES-GCM, SHA-256 and UTF-8 are
-- parameters.
--
-- Cli: the commands of src/boveda/cli.py (init, list, restore, backup; Cli.Verify, Cli.Rotate)
-- over the catalogue, its table of settings and the bucket; what they print is a value. The run of
-- the pipeline is a parameter of backup: what it raised and the world it left. A backup reads the
-- clock once, and the text of an exception is given cut to 500 characters. Cli.Finish says how a
-- backup ends. Cli.Run fills that parameter with run_pipeline, for a pipeline that returns and
-- chunks whose uploads are made in order; Cli.Run.Unlinked takes a backup on an engine of the
-- program through its uploads, the retention run, the full check and the restore; Cli.Run.Later
-- has the worlds that later backups lead to, Cli.Rotate.Restorable a rotation and the restores
-- after it.
--
-- Retention.Classify: classify_snapshots of src/boveda/retention.py, with the calendar as a
-- parameter and timestamps in seconds; Retention.Classify.Kept says what it spares.
--
-- Rotation: rotate_kek_in_database of src/boveda/keys.py, over the snapshots of the catalogue;
-- Keys: its key providers. Tokens and Tickets: create_access_token, verify_access_token and
-- TicketStore of src/boveda/auth.py, with base64, JSON, pydantic and Ed25519 as parameters.
-- Tenants: get_tenant_db_path of src/boveda/database.py and the identifiers of
-- src/boveda/schemas.py; Schemas: the requests of that file; Schemas.Contained:
-- PathContainmentValidator, which checks that a path lies below a directory. Api: the endpoints of
-- src/boveda/api.py over a function from paths to catalogues; Api.ServerKeys: its key file.
-- Merkle: compute_merkle_root of src/boveda/manifest.py over a hash function that is a parameter;
-- the loop over the levels runs on fuel, a round for each hash; Merkle.Manifest: the manifest and
-- its signature.
--
-- Connectors: the dump commands and the stream of src/boveda/connectors.py, a turn of its loop as
-- an event. Redaction: redact_pii_and_secrets of src/boveda/logging.py. Storage: delete_objects_s3
-- of src/boveda/storage.py; its loop runs on fuel, a round for each key, and each round takes at
-- least one.
--
-- Engines: get_engine and get_tenant_session_factory of src/boveda/database.py, the engines of a
-- process by path.
--
-- Cleanup: cleanup_in_progress_snapshots of src/boveda/storage.py with the calls that abort the
-- uploads. Stderr: drain_stderr_nonblocking of src/boveda/connectors.py. Tokens.Base64: the
-- padding of base64url in src/boveda/auth.py. Migration: the initial schema of src/alembic, and
-- the tables that init_db of src/boveda/database.py creates, as operations on a list of tables.
--
-- Tests holds the sample data and the concrete runs.
--
-- Not modelled: network and process I/O, the third-party libraries (boto3, tenacity, SQLAlchemy,
-- FastAPI, pydantic, structlog, cryptography), alerts (a webhook never raises), the text of
-- answers and messages, prompts, the termination of processes, and what Alembic keeps of its
-- revisions. A session is its committed effect: what raises before its commit leaves the catalogue
-- as it was.
pub mod Prelude
pub mod Catalog
pub mod Purge
pub mod Backup
pub mod Retention
pub mod Breaker
pub mod FastCdc
pub mod Outbox
pub mod Header
pub mod Pipeline
pub mod Restore
pub mod Fsm
pub mod Merkle
pub mod Tickets
pub mod Rotation
pub mod Tokens
pub mod Cli
pub mod Connectors
pub mod Tenants
pub mod Api
pub mod Storage
pub mod Schemas
pub mod Keys
pub mod Derive
pub mod Redaction
pub mod Tests
pub mod Migration
pub mod Stderr
pub mod Cleanup
pub mod Engines
