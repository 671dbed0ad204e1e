-- ===== src/Cli/Rotate/Restorable.antt =====
-- `restore` of src/boveda/cli.py after `rotate-kek`.
use boveda_pyme.Prelude.{
  ℕ, String, ◌≡◌, refl, ap, ◌∙◌, true, Option, some, List, [], ◌∷◌, arith, inl, inr, Bool-cases,
  Option-cases, subst, none,
}
use boveda_pyme.Cli.Rotate.{rotate_kek_command, set_salt, settle_rotation}
use boveda_pyme.Catalog.{Snapshot, is_completed, update_where}
use boveda_pyme.Pipeline.{Encrypt}
use boveda_pyme.Restore.{
  Bloque, Decrypt, unwrap_dek, restore_snapshot, restore_bloques, sort_by_seq,
}
use boveda_pyme.Rotation.Rows.{IsRewrapped, SameRow, missing, found, rotate_kek-SameRow}
use boveda_pyme.Cli.{
  Setting, has_clave, setting_of, Catalogue, Echo, rotated, completed_snapshot, bloques_of, restore,
  echo_restore,
}

set_salt-setting_of :
    (salt : String) (old : Setting) (cs : List Setting)
    → setting_of "master_salt" cs ≡ some old
    → setting_of "master_salt"
        (update_where (has_clave "master_salt") (λ c. record c { valor = salt }) cs)
      ≡ some (record old { valor = salt })
set_salt-setting_of salt old [] e = absurd (cc)
set_salt-setting_of salt old (c ∷ cs) e = elim (Bool-cases (has_clave "master_salt" c)) [
  | inl is ↦
      let same : c ≡ old = ground arith in
      let first : setting_of "master_salt"
            (update_where (has_clave "master_salt") (λ c. record c { valor = salt }) (c ∷ cs))
          ≡ some (record c { valor = salt }) =
        ground arith in
      first ∙ ap (λ (q : Setting). some (record q { valor = salt })) same
  | inr not_is ↦ ground (arith, set_salt-setting_of salt old cs)
]

module _ (derive_kek : String → String → List ℕ) (encrypt : Encrypt) (decrypt : Decrypt)
    (sha256 : List ℕ → String) (utf8 new_nonce : String → List ℕ)
    (decrypt-encrypt : (k n p a : List ℕ) → decrypt k n (encrypt k n p a) a ≡ some p) where
  restore_rewrapped :
      (download : String → Option (List ℕ)) (old_kek new_kek : List ℕ) (s s' : Snapshot)
      (bs : List Bloque)
      → is_completed s.estado ≡ true
      → IsRewrapped encrypt decrypt utf8 new_nonce decrypt-encrypt old_kek new_kek s s'
      → restore_snapshot decrypt sha256 utf8 download s' new_kek true bs
        ≡ restore_snapshot decrypt sha256 utf8 download s old_kek true bs
  unfolding restore_snapshot
  restore_rewrapped download old_kek new_kek s s' bs c r =
      let c' = r.same_state ∙ c in
      elim (Option-cases (unwrap_dek decrypt utf8 old_kek s)) [
        | inl shut ↦ let shut' = r.opens c ∙ shut in rw (c, c', shut, shut') refl
        | inr (dek, opened) ↦
            let opened' = r.opens c ∙ opened in
            rw (c, c', opened, opened')
              (ap (λ i. restore_bloques decrypt sha256 utf8 download dek i (sort_by_seq bs))
                r.same_id)
      ]

  abbrev with_rotated : String → List Snapshot → Catalogue → Catalogue
  with_rotated new_salt ss c = record {
    world = record c.world { db = record c.world.db { snapshots = ss } };
    configuracion = set_salt derive_kek encrypt decrypt utf8 new_salt c.configuracion;
  }

  restore-SameRow :
      (old_passphrase new_passphrase new_salt j : String) (c : Catalogue) (salt : Setting)
      (ss : List Snapshot)
      → setting_of "master_salt" c.configuracion ≡ some salt
      → SameRow encrypt decrypt utf8 new_nonce decrypt-encrypt
          (derive_kek old_passphrase salt.valor)
          (derive_kek new_passphrase new_salt)
          j
          c.world.db.snapshots
          ss
      → restore derive_kek encrypt decrypt sha256 utf8 new_passphrase j (with_rotated new_salt ss c)
        ≡ restore derive_kek encrypt decrypt sha256 utf8 old_passphrase j c
  unfolding restore bloques_of
  restore-SameRow old_passphrase new_passphrase new_salt j c salt ss e (missing a b) =
      let there : completed_snapshot j c.world.db ≡ none = rw (completed_snapshot, a) refl in
      let there' : completed_snapshot j (with_rotated new_salt ss c).world.db ≡ none =
        rw (completed_snapshot, b) refl in
      rw (restore, there, there') refl
  restore-SameRow old_passphrase new_passphrase new_salt j c salt ss e (found s s' a b r) =
      elim (Bool-cases (is_completed s.estado)) [
        | inr not_is ↦
            let not_is' = r.same_state ∙ not_is in
            let there : completed_snapshot j c.world.db ≡ none =
              rw (completed_snapshot, a, not_is) refl in
            let there' : completed_snapshot j (with_rotated new_salt ss c).world.db ≡ none =
              rw (completed_snapshot, b, not_is') refl in
            rw (restore, there, there') refl
        | inl is ↦
            let is' = r.same_state ∙ is in
            let there : completed_snapshot j c.world.db ≡ some s =
              rw (completed_snapshot, a, is) refl in
            let there' : completed_snapshot j (with_rotated new_salt ss c).world.db ≡ some s' =
              rw (completed_snapshot, b, is') refl in
            let e' = set_salt-setting_of new_salt salt c.configuracion e in
            rw (restore, there, there', e, e')
              (ap (echo_restore derive_kek encrypt decrypt sha256 utf8) (
                restore_rewrapped c.world.s3 (derive_kek old_passphrase salt.valor)
                  (derive_kek new_passphrase new_salt) s s' (bloques_of j c.world.db) is r))
      ]

  settled :
      (new_salt : String) (c c' : Catalogue) (n : ℕ) (r : Option (ℕ × List Snapshot))
      → settle_rotation derive_kek encrypt decrypt utf8 new_salt c r ≡ (rotated n, c')
      → (m : ℕ) × (ss : List Snapshot) × (r ≡ some (m, ss)) × (with_rotated new_salt ss c ≡ c')
  settled new_salt c c' n none e = absurd (let k = ap (λ (p : Echo × Catalogue). p.0) e in cc)
  settled new_salt c c' n (some (m, ss)) e = (m, ss, refl, ap (λ (p : Echo × Catalogue). p.1) e)

  -- Provided that decryption undoes encryption: after a rotation that says how many keys it has
  -- rewrapped, the restore of any snapshot with the new passphrase comes out as with the old one
  -- before.
  pub restore-rotate_kek_command :
      (old_passphrase new_passphrase new_salt j : String) (n : ℕ) (c c' : Catalogue)
      → rotate_kek_command derive_kek encrypt decrypt utf8 new_nonce old_passphrase new_passphrase
          new_salt c
        ≡ (rotated n, c')
      → restore derive_kek encrypt decrypt sha256 utf8 new_passphrase j c'
        ≡ restore derive_kek encrypt decrypt sha256 utf8 old_passphrase j c
  unfolding rotate_kek_command
  restore-rotate_kek_command old_passphrase new_passphrase new_salt j n c c' e =
      elim (Option-cases (setting_of "master_salt" c.configuracion)) [
        | inl no_salt_there ↦ absurd (
            let k =
              ap (λ (p : Echo × Catalogue). p.0) (rw (rotate_kek_command, no_salt_there) at e) in
            cc)
        | inr (salt, there) ↦
            let (m, ss, done, same) =
              settled new_salt c c' n _ (rw (rotate_kek_command, there) at e) in
            subst
              (λ q.
                restore derive_kek encrypt decrypt sha256 utf8 new_passphrase j q
                ≡ restore derive_kek encrypt decrypt sha256 utf8 old_passphrase j c)
              same
              (restore-SameRow old_passphrase new_passphrase new_salt j c salt ss there (
                rotate_kek-SameRow encrypt decrypt utf8 new_nonce decrypt-encrypt
                  (derive_kek old_passphrase salt.valor) (derive_kek new_passphrase new_salt) j
                  c.world.db.snapshots done))
      ]
