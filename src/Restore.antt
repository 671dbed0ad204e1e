-- ===== src/Restore.antt =====
-- restore_snapshot of src/boveda/restore.py. What goes to the decompressor's stream is the list of
-- the plaintexts written to it. The bucket's download, AES-GCM, SHA-256 and UTF-8 are parameters.
pub mod RoundTrip
pub mod EndToEnd
pub mod Reads
use boveda_pyme.Prelude.{
  ℕ, String, Bool, not, Option, none, some, List, [], ◌∷◌, ◌++◌, str_eq, ltb, leb, ◌==◌,
  if◌then◌else◌, length, take, drop, ◌>>=◌, ◌>>◌, raise_if, Result, ok, err,
}
use boveda_pyme.Catalog.{Snapshot, is_completed}
use boveda_pyme.Header.{HeaderError, parse_chunk_header, create_aad}

-- What the loop reads of a link and its pool entry.
pub record Bloque : Type 0 where
  pub chunk_seq : ℕ
  pub storage_key : String
  pub hash_sha256 : String

pub data RestoreError : Type 0 where
  not_completed bad_dek download_failed : RestoreError
  truncated hash_mismatch bad_tag : ℕ → RestoreError
  bad_header : ℕ → HeaderError → RestoreError
  wrong_sequence : ℕ → ℕ → RestoreError

-- `AESGCM(key).decrypt(nonce, data, aad)`: `none` is InvalidTag.
abbrev pub Decrypt : Type 0
Decrypt = List ℕ → List ℕ → List ℕ → List ℕ → Option (List ℕ)

abbrev pub or_raise : {A : Type 0} → RestoreError → Option A → Result RestoreError A
or_raise e none = err e
or_raise e (some a) = ok a

abbrev pub parsed : ℕ → Result HeaderError (ℕ × List ℕ × ℕ) → Result RestoreError (ℕ × List ℕ × ℕ)
parsed seq (ok fields) = ok fields
parsed seq (err e) = err (bad_header seq e)

-- `sorted(bloques, key=lambda b: b.chunk_seq)`
unfoldable pub insert_by_seq : Bloque → List Bloque → List Bloque
insert_by_seq b [] = b ∷ []
insert_by_seq b (c ∷ bs) =
    let rest = insert_by_seq b bs in if leb b.chunk_seq c.chunk_seq then b ∷ c ∷ bs else c ∷ rest

unfoldable pub sort_by_seq : List Bloque → List Bloque
unfolding insert_by_seq
sort_by_seq [] = []
sort_by_seq (b ∷ bs) = insert_by_seq b (sort_by_seq bs)

-- Puts what one turn of the loop wrote before what the others write.
abbrev pub and_write :
    List ℕ
    → Result RestoreError (Unit {0}) × List (List ℕ)
    → Result RestoreError (Unit {0}) × List (List ℕ)
and_write plaintext (r, written) = (r, plaintext ∷ written)

-- unwrap_dek of src/boveda/crypto.py, for the columns of a snapshot.
unfoldable pub unwrap_dek : Decrypt → (String → List ℕ) → List ℕ → Snapshot → Option (List ℕ)
unwrap_dek decrypt utf8 kek s = decrypt kek s.dek_nonce (s.encrypted_dek ++ s.dek_tag) (utf8 s.id)

module _ (decrypt : Decrypt) (sha256 : List ℕ → String) (utf8 : String → List ℕ) where
  -- One turn of the loop, up to the plaintext.
  unfoldable pub open_chunk : List ℕ → String → Bloque → List ℕ → Result RestoreError (List ℕ)
  open_chunk dek snapshot_id b raw = do
    raise_if (ltb (length raw) 26) (truncated b.chunk_seq)
    raise_if (not (str_eq (sha256 raw) b.hash_sha256)) (hash_mismatch b.chunk_seq)
    (c_seq, nonce, _) ← parsed b.chunk_seq (parse_chunk_header (take 26 raw))
    raise_if (not (c_seq == b.chunk_seq)) (wrong_sequence c_seq b.chunk_seq)
    or_raise (bad_tag b.chunk_seq)
        (decrypt dek nonce (drop 26 raw) (create_aad (take 26 raw) (utf8 snapshot_id)))

  unfoldable pub restore_bloque :
      (String → Option (List ℕ)) → List ℕ → String → Bloque → Result RestoreError (List ℕ)
  unfolding open_chunk
  restore_bloque download dek snapshot_id b =
      or_raise download_failed (download b.storage_key) >>= open_chunk dek snapshot_id b

  unfoldable pub restore_bloques :
      (String → Option (List ℕ))
      → List ℕ
      → String
      → List Bloque
      → Result RestoreError (Unit {0}) × List (List ℕ)
  unfolding restore_bloque
  restore_bloques download dek snapshot_id [] = (ok tt, [])
  restore_bloques download dek snapshot_id (b ∷ bs) =
      elim (restore_bloque download dek snapshot_id b)
        as (λ _. Result RestoreError (Unit {0}) × List (List ℕ)) [
          | ok plaintext ↦ and_write plaintext (restore_bloques download dek snapshot_id bs)
          | err e ↦ (err e, [])
        ]

  -- The bloques are sorted if they come as a list.
  unfoldable pub restore_snapshot :
      (String → Option (List ℕ))
      → Snapshot
      → List ℕ
      → Bool
      → List Bloque
      → Result RestoreError (Unit {0}) × List (List ℕ)
  unfolding unwrap_dek sort_by_seq restore_bloques
  restore_snapshot download s kek is_list bloques =
      let bs = if is_list then sort_by_seq bloques else bloques in
      if not (is_completed s.estado)
      then (err not_completed, [])
      else elim (unwrap_dek decrypt utf8 kek s)
          as (λ _. Result RestoreError (Unit {0}) × List (List ℕ)) [
            | none ↦ (err bad_dek, [])
            | some dek ↦ restore_bloques download dek s.id bs
          ]
