-- ===== src/Restore/EndToEnd.antt =====
-- A backup from the reads of its source to the bytes of its restore: read_source, the tasks of
-- streaming_pipeline (src/boveda/engine.py) and restore_snapshot (src/boveda/restore.py).
use boveda_pyme.Prelude.{
  ℕ, String, ◌≡◌, refl, sym, ap, ◌∙◌, Bool, true, false, Option, some, List, [], ◌∷◌, ◌++◌, map,
  All, ok,
}
use boveda_pyme.Catalog.{Snapshot, is_completed}
use boveda_pyme.Header.{NonceGenerator}
use boveda_pyme.FastCdc.{Sizes, AreSizes, is_empty}
use boveda_pyme.FastCdc.Feed.{concat}
use boveda_pyme.Pipeline.{Encrypt}
use boveda_pyme.Pipeline.Source.{read_source, read_source_lem}
use boveda_pyme.Pipeline.Tasks.{Tasks, Reach, start, returned}
use boveda_pyme.Pipeline.Tasks.Complete.{returned_complete}
use boveda_pyme.Restore.{Decrypt, restore_snapshot}
use boveda_pyme.Restore.RoundTrip.{bloque_of, Fits, restore-compress_encrypt_upload}

-- What the output file holds when the frames that were written are decompressed one by one.
abbrev pub output_of : (List ℕ → List ℕ) → List (List ℕ) → List ℕ
output_of decompress frames = concat (map decompress frames)

module _ (compress decompress : List ℕ → List ℕ) (encrypt : Encrypt) (decrypt : Decrypt)
    (sha256 : List ℕ → String) (utf8 : String → List ℕ)
    (decompress-compress : (c : List ℕ) → decompress (compress c) ≡ c)
    (decrypt-encrypt : (k n p a : List ℕ) → decrypt k n (encrypt k n p a) a ≡ some p) where
  unpacked : (cs : List (List ℕ)) → map decompress (map compress cs) ≡ cs
  unpacked [] = refl
  unpacked (c ∷ cs) = rw (decompress-compress c) (ap (◌∷◌ c) (unpacked cs))

  -- Provided that decryption undoes encryption and decompression compression, that the reads before
  -- the end are not empty, that the counters and lengths fit their fields, and that the snapshot is
  -- COMPLETED with its wrapped key: after every interleaving of the pipeline's tasks that ends with a
  -- return and with no upload raised, the restore of the links of the uploads, with their objects in
  -- the bucket, raises nothing and outputs the bytes of the reads.
  pub backup-restore :
      (sizes : Sizes) (gear : ℕ → ℕ) (reads chunks : List (List ℕ))
      (download : String → Option (List ℕ)) (key_of : String → String) (kek dek : List ℕ)
      (s : Snapshot) (gen : NonceGenerator) (is_list : Bool) (t : Tasks)
      → AreSizes sizes
      → All (λ r. is_empty r ≡ false) reads
      → read_source sizes gear reads ≡ some chunks
      → Fits compress 0 gen chunks
      → is_completed s.estado ≡ true
      → s.encrypted_dek ++ s.dek_tag ≡ encrypt kek s.dek_nonce dek (utf8 s.id)
      → Reach compress encrypt sha256 dek (utf8 s.id) (start 0 gen chunks) t
      → t.main ≡ returned
      → t.shutdown ≡ false
      → All (λ u. download (key_of u.chunk_hash) ≡ some u.payload) t.uploaded
      → let (r, frames) =
          restore_snapshot decrypt sha256 utf8 download s kek is_list
            (map (bloque_of key_of) t.uploaded) in
        (r ≡ ok tt) × (output_of decompress frames ≡ concat reads)
  backup-restore sizes gear reads chunks download key_of kek dek s gen is_list t a n read f c w run
        m ns d =
      let (found, e, whole) = read_source_lem sizes gear a reads n in
      let same : found ≡ chunks = cc in
      let (ended, all) =
        returned_complete compress encrypt sha256 dek (utf8 s.id) chunks gen run m ns in
      let back =
        restore-compress_encrypt_upload compress encrypt decrypt sha256 utf8 decrypt-encrypt
          download key_of kek dek s gen chunks is_list c w f in
      let restored = ((rw all at back) d).1 in
      rw restored (refl, ap concat (unpacked chunks ∙ sym same) ∙ whole)
