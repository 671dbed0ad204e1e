-- ===== src/Restore/RoundTrip.antt =====
-- A backup by the writer of src/boveda/engine.py, restored by src/boveda/restore.py.
use text.Mathlib.TextPositions.{eq_refl}
use boveda_pyme.Prelude.{
  map, ◌∷◌, [], ap, ◌∙◌, Bool, true, false, ℕ, ◌+◌, ◌<◌, String, ◌≡◌, refl, some, List, ◌++◌, arith,
  ltb, leb, ◌==◌, length, length-append, All, ok, Option, Result, ◌≤◌, All-map, none,
}
use boveda_pyme.Header.{HeaderError, NonceGenerator, be64, next, create_aad}
use boveda_pyme.Header.RoundTrip.{parse-create, take-append_all, drop-append_all}
use boveda_pyme.Pipeline.{Upload, Encrypt, seal, compress_encrypt_upload, and_then}
use boveda_pyme.Restore.{
  Bloque, Decrypt, open_chunk, insert_by_seq, restore_bloques, restore_bloque, sort_by_seq,
  restore_snapshot, unwrap_dek, Snapshot, is_completed,
}

-- The link of an upload, by the storage key of the chunk.
abbrev pub bloque_of : (String → String) → Upload → Bloque
bloque_of key_of u = record {
  chunk_seq = u.chunk_seq;
  storage_key = key_of u.chunk_hash;
  hash_sha256 = u.chunk_hash;
}

-- That the counters and the lengths of a backup fit their fields.
pub record Fits (compress : List ℕ → List ℕ) (seq : ℕ) (gen : NonceGenerator)
    (chunks : List (List ℕ)) : Type 0 where
  pub sequence : seq + length chunks < 4294967296
  pub nonces : gen.counter + length chunks < 18446744073709551616
  pub prefix : length gen.prefix ≡ 4
  pub lengths : All (λ c. length (compress c) + 16 < 4294967296) chunks

module _ (compress : List ℕ → List ℕ) (encrypt : Encrypt) (decrypt : Decrypt)
    (sha256 : List ℕ → String) (utf8 : String → List ℕ)
    (decrypt-encrypt : (k n p a : List ℕ) → decrypt k n (encrypt k n p a) a ≡ some p) where
  abbrev Seals : List ℕ → String → ℕ → NonceGenerator → List ℕ → Type 0
  Seals dek i seq gen chunk =
      (u : Upload) × (seal compress encrypt sha256 dek (utf8 i) seq gen chunk
        ≡ ok (u, record gen { counter = gen.counter + 1 }))
      × (u.chunk_seq ≡ seq)
      × ((key_of : String → String)
          → open_chunk decrypt sha256 utf8 dek i (bloque_of key_of u) u.payload
            ≡ ok (compress chunk))

  seal-Seals :
      (dek : List ℕ) (i : String) (seq : ℕ) (gen : NonceGenerator) (chunk : List ℕ)
      → seq < 4294967296
      → gen.counter < 18446744073709551616
      → length gen.prefix ≡ 4
      → length (compress chunk) + 16 < 4294967296
      → Seals dek i seq gen chunk
  unfolding seal next open_chunk create_aad
  seal-Seals dek i seq gen chunk hs hc hp hl =
      let nonce = gen.prefix ++ be64 gen.counter in
      let twelve : length nonce ≡ 12 =
        omega (arith, length-append gen.prefix (be64 gen.counter), hp) in
      let (header, made, size, read) =
        parse-create seq nonce (length (compress chunk) + 16) hs hl twelve in
      let body = encrypt dek nonce (compress chunk) (header ++ utf8 i) in
      let u : Upload = record {
        chunk_seq = seq;
        payload = header ++ body;
        chunk_hash = sha256 (header ++ body);
      } in
      let counted : leb 18446744073709551616 gen.counter ≡ false = ground arith in
      let long : ltb (length (header ++ body)) 26 ≡ false =
        ground (arith, length-append header body, size) in
      let same : (seq == seq) ≡ true = ground arith in
      (
        u,
        rw (counted, made) refl,
        refl,
        λ key_of.
            rw
              (
                long,
                eq_refl (sha256 (header ++ body)),
                take-append_all 26 header body size,
                drop-append_all 26 header body size,
                read,
                same,
                decrypt-encrypt dek nonce (compress chunk) (header ++ utf8 i),
              )
              refl,
      )

  -- What the induction over the chunks shows of the writer's uploads from `seq` on.
  Restores :
      (String → Option (List ℕ))
      → (String → String)
      → List ℕ
      → String
      → ℕ
      → List (List ℕ)
      → Result HeaderError (Unit {0}) × List Upload
      → Type 0
  Restores download key_of dek i seq chunks (r, us) =
      (r ≡ ok tt)
      × (sort_by_seq (map (bloque_of key_of) us) ≡ map (bloque_of key_of) us)
      × All (λ b. seq ≤ b.chunk_seq) (map (bloque_of key_of) us)
      × (All (λ u. download (key_of u.chunk_hash) ≡ some u.payload) us
          → restore_bloques decrypt sha256 utf8 download dek i (map (bloque_of key_of) us)
            ≡ (ok tt, map compress chunks))

  insert-first :
      (b : Bloque) (bs : List Bloque)
      → All (λ c. b.chunk_seq + 1 ≤ c.chunk_seq) bs
      → insert_by_seq b bs ≡ b ∷ bs
  unfolding insert_by_seq
  insert-first b [] h = refl
  insert-first b (c ∷ bs) h = let first = h.0 in ground arith

  and_then-Restores :
      (download : String → Option (List ℕ)) (key_of : String → String) (dek : List ℕ) (i : String)
      (seq : ℕ) (chunk : List ℕ) (chunks : List (List ℕ)) (u : Upload)
      (done : Result HeaderError (Unit {0}) × List Upload)
      → u.chunk_seq ≡ seq
      → open_chunk decrypt sha256 utf8 dek i (bloque_of key_of u) u.payload ≡ ok (compress chunk)
      → Restores download key_of dek i (seq + 1) chunks done
      → Restores download key_of dek i seq (chunk ∷ chunks) (and_then u done)
  unfolding Restores restore_bloques restore_bloque sort_by_seq
  and_then-Restores download key_of dek i seq chunk chunks u (r, us) numbered opens rest =
      let later : All (λ c. u.chunk_seq + 1 ≤ c.chunk_seq) (map (bloque_of key_of) us) =
        All-map _ _ (map (bloque_of key_of) us) (λ c h. omega (arith, h, numbered)) rest.2 in
      (
        rest.0,
        ap (insert_by_seq (bloque_of key_of u)) rest.1 ∙ insert-first (bloque_of key_of u) _ later,
        (
          omega (arith, numbered),
          All-map _ _ (map (bloque_of key_of) us) (λ c h. omega (arith, h)) rest.2,
        ),
        λ d. restored d.0 (rest.3 d.1),
      )
    where
      restored :
          download (key_of u.chunk_hash) ≡ some u.payload
          → restore_bloques decrypt sha256 utf8 download dek i (map (bloque_of key_of) us)
            ≡ (ok tt, map compress chunks)
          → restore_bloques decrypt sha256 utf8 download dek i (map (bloque_of key_of) (u ∷ us))
            ≡ (ok tt, compress chunk ∷ map compress chunks)
      restored there others =
          let first : restore_bloque decrypt sha256 utf8 download dek i (bloque_of key_of u)
              ≡ ok (compress chunk) =
            rw (there) opens in
          rw (first, others, restore_bloques) refl

  upload-Restores :
      (download : String → Option (List ℕ)) (key_of : String → String) (dek : List ℕ) (i : String)
      (seq : ℕ) (gen : NonceGenerator) (chunks : List (List ℕ))
      → Fits compress seq gen chunks
      → Restores download key_of dek i seq chunks
          (compress_encrypt_upload compress encrypt sha256 dek (utf8 i) seq gen chunks)
  unfolding Restores compress_encrypt_upload restore_bloques restore_bloque sort_by_seq
  upload-Restores download key_of dek i seq gen [] f = (refl, refl, tt, λ d. refl)
  upload-Restores download key_of dek i seq gen (chunk ∷ chunks) f =
      let gen' = record gen { counter = gen.counter + 1 } in
      let rest = upload-Restores download key_of dek i (seq + 1) gen' chunks (record {
        sequence = omega (arith, f.sequence);
        nonces = omega (arith, f.nonces);
        prefix = f.prefix;
        lengths = f.lengths.1;
      }) in
      let (u, sealed, numbered, opens) =
        seal-Seals dek i seq gen chunk (omega (arith, f.sequence)) (omega (arith, f.nonces))
          f.prefix f.lengths.0 in
      rw (uploaded u sealed)
        (and_then-Restores download key_of dek i seq chunk chunks u _ numbered (opens key_of) rest)
    where
      uploaded :
          (u : Upload)
          → seal compress encrypt sha256 dek (utf8 i) seq gen chunk
            ≡ ok (u, record gen { counter = gen.counter + 1 })
          → compress_encrypt_upload compress encrypt sha256 dek (utf8 i) seq gen (chunk ∷ chunks)
            ≡ and_then u (
                compress_encrypt_upload compress encrypt sha256 dek
                  (utf8 i)
                  (seq + 1)
                  (record gen { counter = gen.counter + 1 })
                  chunks)
      uploaded u e = rw (e, compress_encrypt_upload) refl

  -- The writer returns, and its links are sorted.
  pub compress_encrypt_upload-sorted :
      (key_of : String → String) (dek : List ℕ) (i : String) (gen : NonceGenerator)
      (chunks : List (List ℕ))
      → Fits compress 0 gen chunks
      → let (r, us) = compress_encrypt_upload compress encrypt sha256 dek (utf8 i) 0 gen chunks in
        (r ≡ ok tt) × (sort_by_seq (map (bloque_of key_of) us) ≡ map (bloque_of key_of) us)
  unfolding Restores
  compress_encrypt_upload-sorted key_of dek i gen chunks f =
      let all = upload-Restores (λ k. none) key_of dek i 0 gen chunks f in (all.0, all.1)

  -- Provided that decryption undoes encryption, that the counters and lengths of a backup fit their
  -- fields, that the snapshot is COMPLETED with its wrapped key, and that each link's object is in
  -- the bucket: the writer raises nothing, and the restore of its links, as a list or as a stream,
  -- raises nothing and writes the compressed chunks in order.
  pub restore-compress_encrypt_upload :
      (download : String → Option (List ℕ)) (key_of : String → String) (kek dek : List ℕ)
      (s : Snapshot) (gen : NonceGenerator) (chunks : List (List ℕ)) (is_list : Bool)
      → is_completed s.estado ≡ true
      → s.encrypted_dek ++ s.dek_tag ≡ encrypt kek s.dek_nonce dek (utf8 s.id)
      → Fits compress 0 gen chunks
      → let (r, us) =
          compress_encrypt_upload compress encrypt sha256 dek (utf8 s.id) 0 gen chunks in
        All (λ u. download (key_of u.chunk_hash) ≡ some u.payload) us
        → (r ≡ ok tt)
          × (restore_snapshot decrypt sha256 utf8 download s kek is_list (map (bloque_of key_of) us)
              ≡ (ok tt, map compress chunks))
  unfolding Restores restore_snapshot unwrap_dek
  restore-compress_encrypt_upload download key_of kek dek s gen chunks is_list c w f d =
      let all = upload-Restores download key_of dek s.id 0 gen chunks f in
      let key =
        ap (λ x. decrypt kek s.dek_nonce x (utf8 s.id)) w
        ∙ decrypt-encrypt kek s.dek_nonce dek (utf8 s.id) in
      (all.0, either is_list all key)
    where
      either :
          (b : Bool)
          → let (r, us) =
              compress_encrypt_upload compress encrypt sha256 dek (utf8 s.id) 0 gen chunks in
            Restores download key_of dek s.id 0 chunks (r, us)
            → unwrap_dek decrypt utf8 kek s ≡ some dek
            → restore_snapshot decrypt sha256 utf8 download s kek b (map (bloque_of key_of) us)
              ≡ (ok tt, map compress chunks)
      either true all key = rw (c, key, all.1) (all.3 d)
      either false all key = rw (c, key) (all.3 d)
