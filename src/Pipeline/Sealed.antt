-- ===== src/Pipeline/Sealed.antt =====
-- The uploads that the writer of src/boveda/engine.py makes: their numbers and their hashes.
use boveda_pyme.Prelude.{
  ℕ, suc, ◌+◌, String, ◌≡◌, refl, ap, ◌∙◌, sym, inl, inr, List, [], ◌∷◌, length, All, Result, ok,
  Result-cases, >>=-eq-ok, ok-injective,
}
use boveda_pyme.Header.{HeaderError, NonceGenerator, next, create_chunk_header}
use boveda_pyme.Pipeline.{Upload, Encrypt, seal, compress_encrypt_upload}

-- The uploads carry consecutive numbers.
abbrev pub Numbered : ℕ → List Upload → Type 0
Numbered n [] = Unit
Numbered n (u ∷ us) = (u.chunk_seq ≡ n) × Numbered (n + 1) us

module _ (compress : List ℕ → List ℕ) (encrypt : Encrypt) (sha256 : List ℕ → String)
    (dek snapshot_id : List ℕ) where
  seal-eq-ok :
      (seq : ℕ) (gen : NonceGenerator) (chunk : List ℕ) {u : Upload} {gen' : NonceGenerator}
      → seal compress encrypt sha256 dek snapshot_id seq gen chunk ≡ ok (u, gen')
      → (u.chunk_seq ≡ seq) × (sha256 u.payload ≡ u.chunk_hash)
  unfolding seal
  seal-eq-ok seq gen chunk e =
      let ((nonce, gen₁), _, e₁) = >>=-eq-ok (next gen) _ e in
      let (header, _, e₂) =
        >>=-eq-ok (create_chunk_header seq nonce (length (compress chunk) + 16)) _ e₁ in
      let same = ap (λ (p : Upload × NonceGenerator). p.0) (ok-injective e₂) in
      (
        sym (ap (λ u. u.chunk_seq) same),
        sym (ap (λ u. sha256 u.payload) same) ∙ ap (λ u. u.chunk_hash) same,
      )

  -- The uploads of the chunks from a number on: as many as the chunks if nothing raised.
  pub record AreSealed (seq : ℕ) (chunks : List (List ℕ))
      (done : Result HeaderError (Unit {0}) × List Upload) : Type 0 where
    pub numbered : Numbered seq done.1
    pub hashed : All (λ u. sha256 u.payload ≡ u.chunk_hash) done.1
    pub all : done.0 ≡ ok tt → length done.1 ≡ length chunks

  -- However the writer ends, its uploads are numbered from the first number on, and each carries
  -- the hash of its payload; if it returns, there is one for each chunk.
  pub compress_encrypt_upload-AreSealed :
      (seq : ℕ) (gen : NonceGenerator) (chunks : List (List ℕ))
      → AreSealed seq chunks
          (compress_encrypt_upload compress encrypt sha256 dek snapshot_id seq gen chunks)
  unfolding compress_encrypt_upload
  compress_encrypt_upload-AreSealed seq gen [] = record {
    numbered = tt;
    hashed = tt;
    all = λ e. refl;
  }
  compress_encrypt_upload-AreSealed seq gen (chunk ∷ chunks) =
      elim (Result-cases (seal compress encrypt sha256 dek snapshot_id seq gen chunk)) [
        | inl ((u, gen'), sealed) ↦
            let rest = compress_encrypt_upload-AreSealed (seq + 1) gen' chunks in
            let (number, hash) = seal-eq-ok seq gen chunk sealed in
            rw (sealed, compress_encrypt_upload)
              record {
                numbered = (number, rest.numbered);
                hashed = (hash, rest.hashed);
                all = λ e. ap suc (rest.all e);
              }
        | inr (e, raised) ↦
            rw (raised, compress_encrypt_upload)
              record { numbered = tt; hashed = tt; all = λ e. absurd (cc) }
      ]
