-- ===== src/Derive.antt =====
-- The keys and associated data of src/boveda/crypto.py for blocks that tenants and snapshots share.
-- HKDF (salt, info and key), HMAC and UTF-8 are parameters; a literal of bytes is the UTF-8 of its
-- text.
use Prim.Native.String.{◌++◌ as text_append}
use boveda_pyme.Prelude.{
  ℕ, ◌≡◌, refl, ap, sym, ◌∙◌, String, Option, none, some, List, [], ◌∷◌, ◌++◌, length, take, drop,
  str_eq, if◌then◌else◌, drop-length,
}

module _ (hkdf : Option (List ℕ) → List ℕ → List ℕ → List ℕ) (hmac : List ℕ → List ℕ → List ℕ)
    (hexdigest : List ℕ → String) (utf8 : String → List ℕ) where
  unfoldable pub derive_tenant_kek : List ℕ → String → Option (List ℕ) → List ℕ
  derive_tenant_kek kek tenant_id tenant_salt =
      hkdf tenant_salt (utf8 (text_append "boveda-tenant:" tenant_id)) kek

  -- `derive_tenant_kek(…) if tenant_id else kek`
  unfoldable pub source_key : List ℕ → Option String → Option (List ℕ) → List ℕ
  unfolding derive_tenant_kek
  source_key kek none tenant_salt = kek
  source_key kek (some tenant_id) tenant_salt =
      if str_eq tenant_id "" then kek else derive_tenant_kek kek tenant_id tenant_salt

  unfoldable pub derive_dedup_keys : List ℕ → Option String → Option (List ℕ) → List ℕ × List ℕ
  unfolding source_key
  derive_dedup_keys kek tenant_id tenant_salt =
      let key = source_key kek tenant_id tenant_salt in
      (hkdf none (utf8 "boveda-dedup-v2-key") key, hkdf none (utf8 "boveda-dedup-v2-id") key)

  unfoldable pub compute_content_id : List ℕ → List ℕ → String
  compute_content_id k_id content = hexdigest (hmac k_id content)

  unfoldable pub derive_chunk_key : List ℕ → List ℕ → List ℕ
  derive_chunk_key k_dedup content = hmac k_dedup content

  -- The first 12 bytes.
  unfoldable pub compute_synthetic_nonce : List ℕ → List ℕ → List ℕ → List ℕ
  compute_synthetic_nonce chunk_key aad content = take 12 (hmac chunk_key (aad ++ content))

-- The header alone, so that snapshots can share a block.
unfoldable pub create_invariant_aad : List ℕ → List ℕ
create_invariant_aad header = header

-- header + tenant_id.encode("utf-8"), for the bytes of the id.
unfoldable pub create_tenant_aad : List ℕ → List ℕ → List ℕ
create_tenant_aad header tenant_id = header ++ tenant_id

take-append : (xs ys : List ℕ) → take (length xs) (xs ++ ys) ≡ xs
take-append [] ys = refl
take-append (x ∷ xs) ys = ap (◌∷◌ x) (take-append xs ys)

-- The associated data of two headers of one length are the same only for the same header and the
-- same tenant.
pub create_tenant_aad-injective :
    (header header' tenant tenant' : List ℕ)
    → length header ≡ length header'
    → create_tenant_aad header tenant ≡ create_tenant_aad header' tenant'
    → (header ≡ header') × (tenant ≡ tenant')
unfolding create_tenant_aad
create_tenant_aad-injective header header' tenant tenant' e h = (
  sym (take-append header tenant)
      ∙ ap (take (length header)) h
      ∙ ap (λ n. take n (header' ++ tenant')) e
      ∙ take-append header' tenant',
  sym (drop-length header tenant)
      ∙ ap (drop (length header)) h
      ∙ ap (λ n. drop n (header' ++ tenant')) e
      ∙ drop-length header' tenant',
)
