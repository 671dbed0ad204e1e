-- ===== src/Rotation/Rewrapped.antt =====
-- What a rotation of src/boveda/keys.py keeps.
use boveda_pyme.Prelude.{
  ℕ, ◌+◌, ◌-◌, String, ◌≡◌, refl, ap, inl, inr, true, not, some, List, [], ◌∷◌, map, arith,
  Bool-cases, Option-cases, is_some, length, take-append-drop, select, All, Bool, false,
}
use boveda_pyme.Catalog.{Snapshot}
use boveda_pyme.Pipeline.{Encrypt}
use boveda_pyme.Restore.{Decrypt, unwrap_dek}
use boveda_pyme.Rotation.{is_rotated, rotate_kek, rewrap}

select_in :
    (p : Snapshot → Bool) (s : Snapshot) (ss : List Snapshot)
    → p s ≡ true
    → select p (s ∷ ss) ≡ s ∷ select p ss
select_in p s ss e = rw (e, select) refl

select_out :
    (p : Snapshot → Bool) (s : Snapshot) (ss : List Snapshot)
    → p s ≡ false
    → select p (s ∷ ss) ≡ select p ss
select_out p s ss e = rw (e, select) refl

module _ (encrypt : Encrypt) (decrypt : Decrypt) (utf8 new_nonce : String → List ℕ)
    (decrypt-encrypt : (k n p a : List ℕ) → decrypt k n (encrypt k n p a) a ≡ some p) where
  pub rewrap_unwrap :
      (new_kek dek : List ℕ) (s : Snapshot)
      → unwrap_dek decrypt utf8 new_kek (rewrap encrypt decrypt utf8 new_nonce new_kek dek s)
        ≡ some dek
  unfolding rewrap unwrap_dek
  rewrap_unwrap new_kek dek s =
      let ct = encrypt new_kek (new_nonce s.id) dek (utf8 s.id) in
      rw (take-append-drop (length ct - 16) ct)
        (decrypt-encrypt new_kek (new_nonce s.id) dek (utf8 s.id))

  -- Provided that decryption undoes encryption and that the old key opens the key of each COMPLETED
  -- or EXPIRED snapshot, the rotation raises nothing, counts these snapshots, makes the new key open
  -- each of their keys to what it was, and leaves the other snapshots as they were.
  pub rotate_kek_lem :
      (old_kek new_kek : List ℕ) (ss : List Snapshot)
      → All (λ s. is_rotated s ≡ true → is_some (unwrap_dek decrypt utf8 old_kek s) ≡ true) ss
      → (n : ℕ) × (ss' : List Snapshot) × (rotate_kek encrypt decrypt utf8 new_nonce old_kek new_kek
            ss
          ≡ some (n, ss'))
        × (n ≡ length (select is_rotated ss))
        × (map (unwrap_dek decrypt utf8 new_kek) (select is_rotated ss')
            ≡ map (unwrap_dek decrypt utf8 old_kek) (select is_rotated ss))
        × (select (λ s. not (is_rotated s)) ss' ≡ select (λ s. not (is_rotated s)) ss)
  unfolding rotate_kek rewrap
  rotate_kek_lem old_kek new_kek [] h = (0, [], refl, refl, refl, refl)
  rotate_kek_lem old_kek new_kek (s ∷ ss) h =
      let (n, ss', e, count, keys, others) = rotate_kek_lem old_kek new_kek ss h.1 in
      elim (Bool-cases (is_rotated s)) [
        | inr skipped ↦
            let kept : not (is_rotated s) ≡ true = ground arith in
            (
              n,
              s ∷ ss',
              rw (skipped, e) refl,
              rw (select_out is_rotated s ss skipped) count,
              rw (select_out is_rotated s ss skipped, select_out is_rotated s ss' skipped) keys,
              rw (select_in other s ss kept, select_in other s ss' kept) (ap (◌∷◌ s) others),
            )
        | inl due ↦ elim (Option-cases (unwrap_dek decrypt utf8 old_kek s)) [
          | inl lost ↦ let there = h.0 due in absurd (ground arith)
          | inr (dek, opened) ↦
              let s' = rewrap encrypt decrypt utf8 new_nonce new_kek dek s in
              let gone : not (is_rotated s) ≡ false = ground arith in
              let unwrapped = rewrap_unwrap new_kek dek s in
              (
                n + 1,
                s' ∷ ss',
                rw (due, e, opened) refl,
                rw (select_in is_rotated s ss due) (omega (arith, count)),
                rw (select_in is_rotated s ss due, select_in is_rotated s' ss' due)
                    (cc (unwrapped, opened, keys)),
                rw (select_out other s ss gone, select_out other s' ss' gone) others,
              )
        ]
      ]
    where
      other : Snapshot → Bool
      other s = not (is_rotated s)
