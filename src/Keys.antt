-- ===== src/Keys.antt =====
-- The key providers of src/boveda/keys.py: each keeps the key that it got first. Argon2, base64, the
-- environment and the clients of KMS and Vault are parameters; `W` is the state of the client's
-- service.
use boveda_pyme.Prelude.{
  ℕ, String, ◌≡◌, refl, ap, Bool, Option, none, some, List, if◌then◌else◌, str_eq, Result, ok, err,
  ◌∙◌, sym, ok-injective, Option-cases, ◌⊎◌, inl, inr,
}

pub data KeyProviderError : Type 0 where
  not_configured client_failed bad_base64 : KeyProviderError

pub record Argon2idKeyProvider : Type 0 where
  pub passphrase : String
  pub master_salt_b64 : String
  pub cached_kek : Option (List ℕ)

module _ (derive_kek : String → String → List ℕ) where
  -- `Argon2idKeyProvider.get_kek`
  unfoldable pub get_kek : Argon2idKeyProvider → List ℕ × Argon2idKeyProvider
  get_kek p = elim p.cached_kek as (λ _. List ℕ × Argon2idKeyProvider) [
    | some kek ↦ (kek, p)
    | none ↦
        (let kek = derive_kek p.passphrase p.master_salt_b64 in
          (kek, record p { cached_kek = some kek }))
  ]

-- AwsKmsKeyProvider and VaultTransitKeyProvider: the name of the key, and whether there is a client.
pub record ClientKeyProvider : Type 0 where
  pub key_id : String
  pub has_client : Bool
  pub cached_kek : Option (List ℕ)

abbrev pub decoded : Option (List ℕ) → Result KeyProviderError (List ℕ)
decoded none = err bad_base64
decoded (some kek) = ok kek

module _ (b64decode : String → Option (List ℕ)) where
  -- The variable of the environment that stands in for a client.
  unfoldable pub mock_key : Option String → Result KeyProviderError (List ℕ)
  mock_key none = err not_configured
  mock_key (some env_key) =
      if str_eq env_key "" then err not_configured else decoded (b64decode env_key)

module _ {W : Type 0} (b64decode : String → Option (List ℕ)) where
  abbrev pub keep :
      ClientKeyProvider
      → Result KeyProviderError (List ℕ) × W
      → Result KeyProviderError (List ℕ) × ClientKeyProvider × W
  keep p (ok kek, w) = (ok kek, record p { cached_kek = some kek }, w)
  keep p (err e, w) = (err e, p, w)

  -- `AwsKmsKeyProvider.get_kek`: the client gives the key as it is.
  unfoldable pub get_kek_kms :
      (String → W → Result KeyProviderError (List ℕ) × W)
      → Option String
      → ClientKeyProvider
      → W
      → Result KeyProviderError (List ℕ) × ClientKeyProvider × W
  unfolding mock_key
  get_kek_kms generate_data_key env p w =
      elim p.cached_kek as (λ _. Result KeyProviderError (List ℕ) × ClientKeyProvider × W) [
        | some kek ↦ (ok kek, p, w)
        | none ↦
            keep p
              (if p.has_client then generate_data_key p.key_id w else (mock_key b64decode env, w))
      ]

  abbrev pub decode_answer :
      Result KeyProviderError String × W → Result KeyProviderError (List ℕ) × W
  decode_answer (ok plaintext, w) = (decoded (b64decode plaintext), w)
  decode_answer (err e, w) = (err e, w)

  -- `VaultTransitKeyProvider.get_kek`: the client gives the key in base64.
  unfoldable pub get_kek_vault :
      (String → W → Result KeyProviderError String × W)
      → Option String
      → ClientKeyProvider
      → W
      → Result KeyProviderError (List ℕ) × ClientKeyProvider × W
  get_kek_vault generate_data_key env p w =
      get_kek_kms (λ i v. decode_answer (generate_data_key i v)) env p w

  keep-kept :
      (p p' : ClientKeyProvider) (r : Result KeyProviderError (List ℕ) × W) (w' : W) (kek : List ℕ)
      → keep p r ≡ (ok kek, p', w')
      → p'.cached_kek ≡ some kek
  keep-kept p p' (ok found, w) w' kek h =
      sym (ap (λ x. x.1.cached_kek) h) ∙ ap some (ok-injective (ap (λ x. x.0) h))
  keep-kept p p' (err e, w) w' kek h = let failed = ap (λ x. x.0) h in absurd (cc)

  is_kept :
      (generate : String → W → Result KeyProviderError (List ℕ) × W) (env : Option String)
      (p p' : ClientKeyProvider) (w w' : W) (kek : List ℕ)
      → (p.cached_kek ≡ none) ⊎ ((found : List ℕ) × (p.cached_kek ≡ some found))
      → get_kek_kms generate env p w ≡ (ok kek, p', w')
      → p'.cached_kek ≡ some kek
  unfolding get_kek_kms
  is_kept generate env p p' w w' kek (inl e) h =
      keep-kept (record p { cached_kek = none }) p'
        (if p.has_client then generate p.key_id w else (mock_key b64decode env, w)) w' kek
        (rw e at h)
  is_kept generate env p p' w w' kek (inr (found, e)) h =
      let same = rw e at h in
      sym (ap (λ x. x.1.cached_kek) same) ∙ ap some (ok-injective (ap (λ x. x.0) same))

  -- Once a provider has given a key, it gives the same key at every later time, whatever the
  -- environment, the client and its service have become, and asks nobody.
  pub get_kek_kms_again :
      (generate generate' : String → W → Result KeyProviderError (List ℕ) × W)
      (env env' : Option String) (p p' : ClientKeyProvider) (w w' later : W) (kek : List ℕ)
      → get_kek_kms generate env p w ≡ (ok kek, p', w')
      → get_kek_kms generate' env' p' later ≡ (ok kek, p', later)
  unfolding get_kek_kms
  get_kek_kms_again generate generate' env env' p p' w w' later kek h =
      rw (is_kept generate env p p' w w' kek (Option-cases p.cached_kek) h) refl
