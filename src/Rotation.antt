-- ===== src/Rotation.antt =====
-- rotate_kek_in_database of src/boveda/keys.py, over the snapshots of the catalogue. AES-GCM and the
-- random nonces are parameters. The salt in the table of settings is left out. `none` is that
-- unwrap_dek raised, and nothing is committed.
pub mod Rewrapped
pub mod Rows
use boveda_pyme.Prelude.{
  ℕ, ◌+◌, ◌-◌, String, Bool, ◌||◌, Option, none, some, List, [], ◌∷◌, if◌then◌else◌, length, take,
  drop,
}
use boveda_pyme.Catalog.{Snapshot, is_completed, is_expired}
use boveda_pyme.Pipeline.{Encrypt}
use boveda_pyme.Restore.{Decrypt, unwrap_dek}

-- `Snapshot.estado.in_(["COMPLETED", "EXPIRED"])`
abbrev pub is_rotated : Snapshot → Bool
is_rotated s = is_completed s.estado || is_expired s.estado

-- The new columns: the ciphertext without its last 16 bytes, the nonce, and those bytes.
abbrev pub with_dek : List ℕ → List ℕ → Snapshot → Snapshot
with_dek ciphertext nonce s = record s {
  encrypted_dek = take (length ciphertext - 16) ciphertext;
  dek_nonce = nonce;
  dek_tag = drop (length ciphertext - 16) ciphertext;
}

abbrev pub after_first : Snapshot → Option (ℕ × List Snapshot) → Option (ℕ × List Snapshot)
after_first s none = none
after_first s (some (n, ss)) = some (n + 1, s ∷ ss)

abbrev pub after_other : Snapshot → Option (ℕ × List Snapshot) → Option (ℕ × List Snapshot)
after_other s none = none
after_other s (some (n, ss)) = some (n, s ∷ ss)

module _ (encrypt : Encrypt) (decrypt : Decrypt) (utf8 : String → List ℕ)
    (new_nonce : String → List ℕ) where
  unfoldable pub rewrap : List ℕ → List ℕ → Snapshot → Snapshot
  rewrap new_kek raw_dek s =
      with_dek (encrypt new_kek (new_nonce s.id) raw_dek (utf8 s.id)) (new_nonce s.id) s

  abbrev pub after_unwrap :
      List ℕ → Snapshot → Option (ℕ × List Snapshot) → Option (List ℕ) → Option (ℕ × List Snapshot)
  after_unwrap new_kek s rest none = none
  after_unwrap new_kek s rest (some raw_dek) = after_first (rewrap new_kek raw_dek s) rest

  -- The number of rotated snapshots, and the snapshots.
  unfoldable pub rotate_kek : List ℕ → List ℕ → List Snapshot → Option (ℕ × List Snapshot)
  unfolding rewrap
  rotate_kek old_kek new_kek [] = some (0, [])
  rotate_kek old_kek new_kek (s ∷ ss) =
      let rest = rotate_kek old_kek new_kek ss in
      if is_rotated s
      then after_unwrap new_kek s rest (unwrap_dek decrypt utf8 old_kek s)
      else after_other s rest
