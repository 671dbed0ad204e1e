-- ===== src/Merkle.antt =====
-- compute_merkle_root of src/boveda/manifest.py. SHA-256 is a parameter, and the hashes of the chunks
-- are the bytes that their hexadecimal texts stand for.
pub mod Root
pub mod Manifest
use boveda_pyme.Prelude.{ℕ, zero, suc, Option, none, some, List, [], ◌∷◌, ◌++◌, map, length}

module _ (sha256 : List ℕ → List ℕ) where
  abbrev pub leaf : List ℕ → List ℕ
  leaf h = sha256 (0 ∷ h)

  abbrev pub node : List ℕ → List ℕ → List ℕ
  node left right = sha256 (1 ∷ (left ++ right))

  -- One round: the next level. A last member without a partner is its own partner.
  unfoldable pub next_level : List (List ℕ) → List (List ℕ)
  next_level [] = []
  next_level (left ∷ []) = node left left ∷ []
  next_level (left ∷ right ∷ level) = node left right ∷ next_level level

  -- `while len(current_level) > 1`, then the first member; `none` is that the fuel ran out.
  unfoldable pub merkle_loop : ℕ → List (List ℕ) → Option (List ℕ)
  merkle_loop fuel [] = none
  merkle_loop fuel (root ∷ []) = some root
  merkle_loop zero (a ∷ b ∷ level) = none
  merkle_loop (suc fuel) (a ∷ b ∷ level) = merkle_loop fuel (next_level (a ∷ b ∷ level))

  -- With fuel for a round for each hash.
  unfoldable pub compute_merkle_root : List (List ℕ) → Option (List ℕ)
  unfolding merkle_loop next_level
  compute_merkle_root [] = some (sha256 [])
  compute_merkle_root (h ∷ hs) = merkle_loop (length (h ∷ hs)) (map leaf (h ∷ hs))
