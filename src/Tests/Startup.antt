-- ===== src/Tests/Startup.antt =====
-- Witnesses for the schema, the clean-up after a crash, the error output of a process and a rotation.
use boveda_pyme.Prelude.{
  none, ◌↔◌, ◌++◌, String, false, ℕ, ◌≤◌, ◌≡◌, refl, str_eq, if◌then◌else◌, some, ok, List, [], ◌∷◌,
  length,
}
use boveda_pyme.Api.ServerKeys.{
  ed25519, load_or_create_server_keys, load_or_create_server_keys_again,
}
use boveda_pyme.Schemas.Contained.{ensure_confined_path, ensure_confined_path_iff}
use boveda_pyme.Catalog.{Snapshot, running, completed, expired}
use boveda_pyme.Migration.{Table, upgrade, downgrade, chunk_pool}
use boveda_pyme.Migration.Applied.{downgrade-upgrade}
use boveda_pyme.Stderr.{drain_stderr, drain_stderr_lem, last_of, before_end}
use boveda_pyme.Cleanup.{Abort, client_error, raises, cleanup_after_crash}
use boveda_pyme.Cleanup.Aborted.{IsCleaned, cleanup_after_crash-IsCleaned}
use boveda_pyme.Restore.{unwrap_dek}
use boveda_pyme.Rotation.{rotate_kek, rewrap}
use boveda_pyme.Cli.{Catalogue, restore}
use boveda_pyme.Cli.Rotate.{rotate_kek_command}
use boveda_pyme.Cli.Rotate.Restorable.{restore-rotate_kek_command}
use boveda_pyme.Tests.Samples.{
  sample_snapshot, sample_world, sample_db, sealed_snapshot, plain_encrypt, plain_decrypt,
}

downgrade-upgrade_example :
    (s : List Table) × (upgrade (chunk_pool ∷ []) ≡ ok s) × (downgrade s ≡ ok (chunk_pool ∷ []))
downgrade-upgrade_example = downgrade-upgrade (chunk_pool ∷ []) refl refl refl

abbrev stderr_reads : List (List ℕ)
stderr_reads = (1 ∷ []) ∷ (2 ∷ []) ∷ (3 ∷ []) ∷ [] ∷ (4 ∷ []) ∷ []

drain_stderr_lem_example :
    (drain_stderr 2 [] stderr_reads ≡ last_of 2 (before_end stderr_reads))
    × (length (drain_stderr 2 [] stderr_reads) ≤ 2)
drain_stderr_lem_example = drain_stderr_lem 2 stderr_reads

abbrev crashed : List Snapshot
crashed =
    record (sample_snapshot "s1" running) { multipart_upload_id = some "u1" }
    ∷ sample_snapshot "s2" completed
    ∷ record (sample_snapshot "s3" running) { multipart_upload_id = some "u3" }
    ∷ record (sample_snapshot "s4" running) { multipart_upload_id = some "u4" }
    ∷ []

-- The bucket does not know the first upload, and the second call times out.
abbrev abort_sample : Abort
abort_sample key u = if str_eq u "u3" then raises else client_error

cleanup_after_crash-IsCleaned_example :
    IsCleaned abort_sample crashed (cleanup_after_crash abort_sample crashed)
cleanup_after_crash-IsCleaned_example = cleanup_after_crash-IsCleaned abort_sample crashed

abbrev rotated_before : Catalogue
rotated_before = record {
  world = record sample_world {
    db = record sample_db { snapshots = sealed_snapshot ∷ sample_snapshot "s2" expired ∷ [] };
  };
  configuracion = record { clave = "master_salt"; valor = "c2FsdA=="; es_secreto = false } ∷ [];
}

abbrev rotated_after : Catalogue
rotated_after =
    (rotate_kek_command (λ p s. 7 ∷ []) plain_encrypt plain_decrypt (λ i. []) (λ i. 3 ∷ []) "old"
      "new" "bmV3" rotated_before).1

restore-rotate_kek_command_example :
    restore
      (λ p s. 7 ∷ [])
      plain_encrypt
      plain_decrypt
      (λ raw. "h")
      (λ i. [])
      "new"
      "s1"
      rotated_after
    ≡ restore
        (λ p s. 7 ∷ [])
        plain_encrypt
        plain_decrypt
        (λ raw. "h")
        (λ i. [])
        "old"
        "s1"
        rotated_before
unfolding rotate_kek_command rotate_kek rewrap unwrap_dek
restore-rotate_kek_command_example =
    restore-rotate_kek_command (λ p s. 7 ∷ []) plain_encrypt plain_decrypt (λ raw. "h") (λ i. [])
      (λ i. 3 ∷ []) (λ k n p a. refl) "old" "new" "bmV3" "s1" 2 rotated_before rotated_after refl

-- A file of one character for each key, and its key pair.
load_or_create_server_keys_again_example :
    let start = load_or_create_server_keys (λ k. k) (λ t. ed25519 t) (λ k. k) in
    start "k2" (start "k1" none).1 ≡ (ok ("k1", "k1"), (start "k1" none).1)
unfolding load_or_create_server_keys
load_or_create_server_keys_again_example =
    load_or_create_server_keys_again (λ k. k) (λ t. ed25519 t) (λ k. k) "k1" "k2" none (λ k. refl)
      refl

abbrev data_dir : List String
data_dir = "data" ∷ []

abbrev data_file : List String
data_file = "data" ∷ "a" ∷ []

ensure_confined_path_iff_example :
    (ensure_confined_path (λ p. p) data_file data_dir ≡ ok data_file)
    ↔ ((data_file ≡ data_file) × ((rest : List String) × (data_file ≡ data_dir ++ rest)))
ensure_confined_path_iff_example = ensure_confined_path_iff (λ p. p) data_file data_dir data_file
