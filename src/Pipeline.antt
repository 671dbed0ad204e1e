-- ===== src/Pipeline.antt =====
-- The writer of src/boveda/engine.py (compress_encrypt_upload): what it hands to upload_callback for
-- the chunks of its queue, in the order of their sequence numbers. `Tasks` has the reader, the
-- writer, their queue and the uploads as tasks that take turns. The compressor, AES-GCM and SHA-256 are parameters.
pub mod Tasks
pub mod Source
pub mod Sealed
use boveda_pyme.Prelude.{ℕ, ◌+◌, String, List, [], ◌∷◌, ◌++◌, length, ◌>>=◌, Result, ok, err}
use boveda_pyme.Header.{HeaderError, NonceGenerator, next, create_chunk_header, create_aad}

-- The arguments of one call of `upload_callback`.
pub record Upload : Type 0 where
  pub chunk_seq : ℕ
  pub payload : List ℕ
  pub chunk_hash : String

-- `AESGCM(key).encrypt(nonce, data, aad)`
abbrev pub Encrypt : Type 0
Encrypt = List ℕ → List ℕ → List ℕ → List ℕ → List ℕ

abbrev pub and_then :
    Upload
    → Result HeaderError (Unit {0}) × List Upload
    → Result HeaderError (Unit {0}) × List Upload
and_then u (r, us) = (r, u ∷ us)

module _ (compress : List ℕ → List ℕ) (encrypt : Encrypt) (sha256 : List ℕ → String) where
  -- The payload of one chunk: header and ciphertext.
  unfoldable pub seal :
      List ℕ → List ℕ → ℕ → NonceGenerator → List ℕ → Result HeaderError (Upload × NonceGenerator)
  seal dek snapshot_id chunk_seq gen chunk =
      let compressed = compress chunk in
      next gen >>= λ (nonce, gen').
      create_chunk_header chunk_seq nonce (length compressed + 16) >>= λ header.
      let payload = header ++ encrypt dek nonce compressed (create_aad header snapshot_id) in
      ok (record { chunk_seq = chunk_seq; payload = payload; chunk_hash = sha256 payload }, gen')

  -- The loop, until the sentinel or an exception.
  unfoldable pub compress_encrypt_upload :
      List ℕ
      → List ℕ
      → ℕ
      → NonceGenerator
      → List (List ℕ)
      → Result HeaderError (Unit {0}) × List Upload
  unfolding seal
  compress_encrypt_upload dek snapshot_id chunk_seq gen [] = (ok tt, [])
  compress_encrypt_upload dek snapshot_id chunk_seq gen (chunk ∷ chunks) =
      elim (seal dek snapshot_id chunk_seq gen chunk)
        as (λ _. Result HeaderError (Unit {0}) × List Upload) [
          | ok (u, gen') ↦
              and_then u (compress_encrypt_upload dek snapshot_id (chunk_seq + 1) gen' chunks)
          | err e ↦ (err e, [])
        ]
