-- ===== src/Merkle/Root.antt =====
-- The Merkle root of src/boveda/manifest.py: the loop ends, and which lists share a root.
use boveda_pyme.Prelude.{
  ℕ, zero, suc, ◌+◌, ◌*◌, ◌≤◌, ◌≡◌, refl, sym, ap, ◌∙◌, Bool, true, false, List, [], ◌∷◌, ◌++◌, map,
  arith, is_some, length, length-append,
}
use boveda_pyme.Merkle.{leaf, node, next_level, merkle_loop, compute_merkle_root}

-- Lists of even length.
abbrev pub is_even {ℓ} : {A : Type ℓ} → List A → Bool
is_even [] = true
is_even (_ ∷ []) = false
is_even (_ ∷ _ ∷ xs) = is_even xs

module _ (sha256 : List ℕ → List ℕ) where
  length-next_level :
      (level : List (List ℕ)) → length (next_level sha256 level) * 2 ≤ length level + 1
  unfolding next_level
  length-next_level [] = omega arith
  length-next_level (a ∷ []) = omega arith
  length-next_level (a ∷ b ∷ level) = omega (arith, length-next_level level)

  merkle_loop-is_some :
      (fuel : ℕ) (a : List ℕ) (level : List (List ℕ))
      → length level ≤ fuel
      → is_some (merkle_loop sha256 fuel (a ∷ level)) ≡ true
  unfolding merkle_loop next_level
  merkle_loop-is_some fuel a [] h = refl
  merkle_loop-is_some zero a (b ∷ level) h = absurd (omega (arith, h))
  merkle_loop-is_some (suc fuel) a (b ∷ level) h =
      merkle_loop-is_some fuel (node sha256 a b) (next_level sha256 level)
        (omega (arith, h, length-next_level level))

  length-leaves : (hs : List (List ℕ)) → length (map (leaf sha256) hs) ≡ length hs
  length-leaves [] = refl
  length-leaves (h ∷ hs) = ap suc (length-leaves hs)

  -- The root of every list of hashes is computed: the loop ends within one round for each hash.
  pub compute_merkle_root-is_some :
      (hs : List (List ℕ)) → is_some (compute_merkle_root sha256 hs) ≡ true
  unfolding compute_merkle_root
  compute_merkle_root-is_some [] = refl
  compute_merkle_root-is_some (h ∷ hs) =
      merkle_loop-is_some (length (h ∷ hs)) (leaf sha256 h) (map (leaf sha256) hs)
        (omega (arith, length-leaves hs))

  -- More fuel gives the same root.
  merkle_loop_more :
      (fuel : ℕ) (a : List ℕ) (level : List (List ℕ))
      → length level ≤ fuel
      → merkle_loop sha256 (suc fuel) (a ∷ level) ≡ merkle_loop sha256 fuel (a ∷ level)
  unfolding merkle_loop next_level
  merkle_loop_more fuel a [] h = refl
  merkle_loop_more zero a (b ∷ level) h = absurd (omega (arith, h))
  merkle_loop_more (suc fuel) a (b ∷ level) h =
      merkle_loop_more fuel (node sha256 a b) (next_level sha256 level)
        (omega (arith, h, length-next_level level))

  next_level_duplicated :
      (xs : List (List ℕ)) (x : List ℕ)
      → is_even xs ≡ true
      → next_level sha256 (xs ++ x ∷ []) ≡ next_level sha256 (xs ++ x ∷ x ∷ [])
  unfolding next_level
  next_level_duplicated [] x e = refl
  next_level_duplicated (a ∷ []) x e = absurd (cc)
  next_level_duplicated (a ∷ b ∷ xs) x e = ap (◌∷◌ (node sha256 a b)) (next_level_duplicated xs x e)

  -- Two lists of hashes that differ have one root: a list of odd length with its last hash once
  -- more has the root of the list, provided that the list has at least three hashes.
  pub compute_merkle_root_duplicated :
      (a b : List ℕ) (hs : List (List ℕ)) (h : List ℕ)
      → is_even hs ≡ true
      → compute_merkle_root sha256 (a ∷ b ∷ (hs ++ h ∷ []))
        ≡ compute_merkle_root sha256 (a ∷ b ∷ (hs ++ h ∷ h ∷ []))
  unfolding compute_merkle_root merkle_loop next_level
  compute_merkle_root_duplicated a b hs h e =
      let xs = map (leaf sha256) hs in
      let x = leaf sha256 h in
      let n = length (hs ++ h ∷ []) in
      let level = next_level sha256 (xs ++ x ∷ []) in
      let short : length level ≤ suc n = omega (
        arith,
        length-next_level (xs ++ x ∷ []),
        length-append xs (x ∷ []),
        length-leaves hs,
        length-append hs (h ∷ []),
      ) in
      let longer : length (hs ++ h ∷ h ∷ []) ≡ suc n =
        omega (arith, length-append hs (h ∷ []), length-append hs (h ∷ h ∷ [])) in
      let root = node sha256 (leaf sha256 a) (leaf sha256 b) in
      ap (λ l. merkle_loop sha256 (suc n) (root ∷ next_level sha256 l)) (map-append hs (h ∷ []))
      ∙ sym (merkle_loop_more (suc n) root level short)
      ∙ ap (λ l. merkle_loop sha256 (suc (suc n)) (root ∷ l))
          (next_level_duplicated xs x (is_even-map hs ∙ e))
      ∙ ap (λ l. merkle_loop sha256 (suc (suc n)) (root ∷ next_level sha256 l))
          (sym (map-append hs (h ∷ h ∷ [])))
      ∙ ap
          (λ k.
            merkle_loop sha256 (suc k)
              (root ∷ next_level sha256 (map (leaf sha256) (hs ++ h ∷ h ∷ []))))
          (sym longer)
    where
      is_even-map : (ys : List (List ℕ)) → is_even (map (leaf sha256) ys) ≡ is_even ys
      is_even-map [] = refl
      is_even-map (y ∷ []) = refl
      is_even-map (y ∷ z ∷ ys) = is_even-map ys

      map-append :
          (ys zs : List (List ℕ))
          → map (leaf sha256) (ys ++ zs) ≡ map (leaf sha256) ys ++ map (leaf sha256) zs
      map-append [] zs = refl
      map-append (y ∷ ys) zs = ap (◌∷◌ (leaf sha256 y)) (map-append ys zs)
