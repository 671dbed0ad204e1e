-- ===== src/Api/ServerKeys.antt =====
-- The key pair of the server, `_load_or_create_server_keys` in src/boveda/api.py. The key file is an
-- optional text; its rights, its directory and errors of the file system are left out. PEM and Ed25519 belong to
-- the `cryptography` package and are parameters.
use boveda_pyme.Prelude.{String, ◌≡◌, ap, Option, none, some, Result, ok, err}

-- What load_pem_private_key makes of a text: a key, an Ed25519 key or not, or its ValueError.
pub data Loaded (PrivateKey : Type 0) : Type 0 where
  ed25519 : PrivateKey → Loaded PrivateKey
  other_key : Loaded PrivateKey
  unreadable : Loaded PrivateKey

pub data ServerKeyError : Type 0 where
  bad_pem not_ed25519 : ServerKeyError

module _ {PrivateKey PublicKey : Type 0} (public_key : PrivateKey → PublicKey) where
  -- `generate_ed25519_keypair` in src/boveda/auth.py, with the key that `generate` gives.
  unfoldable pub generate_ed25519_keypair : PrivateKey → PrivateKey × PublicKey
  generate_ed25519_keypair generated = (generated, public_key generated)

  abbrev pub key_pair : Loaded PrivateKey → Result ServerKeyError (PrivateKey × PublicKey)
  key_pair (ed25519 key) = ok (key, public_key key)
  key_pair other_key = err not_ed25519
  key_pair unreadable = err bad_pem

  module _ (load_pem : String → Loaded PrivateKey) (private_bytes : PrivateKey → String) where
    -- The pair, and the file afterwards.
    unfoldable pub load_or_create_server_keys :
        PrivateKey → Option String → Result ServerKeyError (PrivateKey × PublicKey) × Option String
    unfolding generate_ed25519_keypair
    load_or_create_server_keys generated (some pem) = (key_pair (load_pem pem), some pem)
    load_or_create_server_keys generated none =
        let (priv_key, pub_key) = generate_ed25519_keypair generated in
        (ok (priv_key, pub_key), some (private_bytes priv_key))

    -- If what is written is read back, a server that starts again has the pair of its first start,
    -- whatever key it would generate, and leaves the file as it is.
    pub load_or_create_server_keys_again :
        (first second : PrivateKey) (file : Option String) {keys : PrivateKey × PublicKey}
        → ((key : PrivateKey) → load_pem (private_bytes key) ≡ ed25519 key)
        → (load_or_create_server_keys first file).0 ≡ ok keys
        → load_or_create_server_keys second (load_or_create_server_keys first file).1
          ≡ (ok keys, (load_or_create_server_keys first file).1)
    unfolding load_or_create_server_keys
    load_or_create_server_keys_again first second (some pem) faithful e = ap (λ r. (r, some pem)) e
    load_or_create_server_keys_again first second none {keys} faithful e =
        rw (faithful first) (ap (λ r. (r, some (private_bytes first))) e)
