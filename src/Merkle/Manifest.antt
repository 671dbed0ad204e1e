-- ===== src/Merkle/Manifest.antt =====
-- The manifests of src/boveda/manifest.py and their signatures. The JSON with sorted keys, base64 and
-- Ed25519 are parameters: `from_private` and `from_public` give none for bytes that are no key, and
-- base64 none for a text that it cannot decode.
use boveda_pyme.Prelude.{ℕ, String, ◌≡◌, Bool, true, false, Option, none, some, List, length, sym}
use boveda_pyme.Merkle.{compute_merkle_root}

-- The entries of `manifest_dict`, in the order of their keys.
pub record Manifest : Type 0 where
  pub chunk_hashes : List (List ℕ)
  pub merkle_root : Option (List ℕ)
  pub parent_manifest_hash : Option String
  pub parent_snapshot_id : Option String
  pub snapshot_id : String
  pub source : String
  pub timestamp : String
  pub total_chunks : ℕ
  pub total_size_bytes : ℕ
  pub tipo : String
  pub version : String

module _ (sha256 : List ℕ → List ℕ) (json_dumps : Manifest → List ℕ) where
  abbrev pub manifest_of :
      String
      → String
      → String
      → String
      → List (List ℕ)
      → ℕ
      → Option String
      → Option String
      → Manifest
  manifest_of snapshot_id timestamp_iso tipo source chunk_hashes total_size_bytes parent_snapshot_id
        parent_manifest_hash =
      record {
        chunk_hashes = chunk_hashes;
        merkle_root = compute_merkle_root sha256 chunk_hashes;
        parent_manifest_hash = parent_manifest_hash;
        parent_snapshot_id = parent_snapshot_id;
        snapshot_id = snapshot_id;
        source = source;
        timestamp = timestamp_iso;
        total_chunks = length chunk_hashes;
        total_size_bytes = total_size_bytes;
        tipo = tipo;
        version = "1.0";
      }

  unfoldable pub create_canonical_manifest_json :
      String → String → String → String → List (List ℕ) → ℕ → Option String → Option String → List ℕ
  create_canonical_manifest_json snapshot_id timestamp_iso tipo source chunk_hashes total_size_bytes
        parent_snapshot_id parent_manifest_hash =
      json_dumps (
        manifest_of snapshot_id timestamp_iso tipo source chunk_hashes total_size_bytes
          parent_snapshot_id parent_manifest_hash)

module _ {Private Public : Type 0} (b64encode : List ℕ → String)
    (b64decode : String → Option (List ℕ)) (from_private : List ℕ → Option Private)
    (from_public : List ℕ → Option Public) (sign : Private → List ℕ → List ℕ)
    (is_signed : Public → List ℕ → List ℕ → Bool) where
  abbrev pub sign_with : List ℕ → Option Private → Option String
  sign_with manifest none = none
  sign_with manifest (some key) = some (b64encode (sign key manifest))

  abbrev pub private_key_of : Option (List ℕ) → Option Private
  private_key_of none = none
  private_key_of (some raw_priv) = from_private raw_priv

  -- `none` is that it raises.
  unfoldable pub sign_manifest_ed25519 : List ℕ → String → Option String
  sign_manifest_ed25519 manifest private_key_b64 =
      sign_with manifest (private_key_of (b64decode private_key_b64))

  abbrev pub check_with : List ℕ → List ℕ → Option Public → Bool
  check_with manifest raw_sig none = false
  check_with manifest raw_sig (some key) = is_signed key raw_sig manifest

  abbrev pub check_parts : List ℕ → Option (List ℕ) → Option (List ℕ) → Bool
  check_parts manifest (some raw_pub) (some raw_sig) =
      check_with manifest raw_sig (from_public raw_pub)
  check_parts manifest _ _ = false

  unfoldable pub verify_manifest_signature : List ℕ → String → String → Bool
  verify_manifest_signature manifest signature_b64 public_key_b64 =
      check_parts manifest (b64decode public_key_b64) (b64decode signature_b64)

  -- Provided that the texts of the two keys hold a private key and its public key, that base64 gives
  -- the signature back, and that the public key accepts what the private key signs: a signature that
  -- was made is accepted.
  pub verify-sign :
      (manifest raw_priv raw_pub : List ℕ) (private_key_b64 public_key_b64 signature : String)
      (private : Private) (public : Public)
      → b64decode private_key_b64 ≡ some raw_priv
      → b64decode public_key_b64 ≡ some raw_pub
      → from_private raw_priv ≡ some private
      → from_public raw_pub ≡ some public
      → b64decode (b64encode (sign private manifest)) ≡ some (sign private manifest)
      → is_signed public (sign private manifest) manifest ≡ true
      → sign_manifest_ed25519 manifest private_key_b64 ≡ some signature
      → verify_manifest_signature manifest signature public_key_b64 ≡ true
  unfolding sign_manifest_ed25519 verify_manifest_signature
  verify-sign manifest raw_priv raw_pub private_key_b64 public_key_b64 signature private public
        dpriv dpub fpriv fpub dsig v made =
      let same : b64encode (sign private manifest) ≡ signature =
        some_inj (rw (dpriv, fpriv) at made) in
      rw (dpub, sym same, dsig, fpub) v
    where
      some_inj : {a b : String} → some a ≡ some b → a ≡ b
      some_inj h = cc
