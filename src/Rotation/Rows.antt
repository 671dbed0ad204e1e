-- ===== src/Rotation/Rows.antt =====
-- The row of a snapshot before and after a rotation of src/boveda/keys.py.
use boveda_pyme.Prelude.{
  ℕ, String, ◌≡◌, refl, sym, ap, ◌∙◌, true, false, inl, inr, Option, none, some, List, [], ◌∷◌,
  arith, first_such, Bool-cases, Option-cases, str_eq, subst,
}
use boveda_pyme.Catalog.{Snapshot, has_id, is_completed}
use boveda_pyme.Pipeline.{Encrypt}
use boveda_pyme.Restore.{Decrypt, unwrap_dek}
use boveda_pyme.Rotation.{is_rotated, rotate_kek, rewrap, after_first, after_other}
use boveda_pyme.Rotation.Rewrapped.{rewrap_unwrap}

module _ (encrypt : Encrypt) (decrypt : Decrypt) (utf8 new_nonce : String → List ℕ)
    (decrypt-encrypt : (k n p a : List ℕ) → decrypt k n (encrypt k n p a) a ≡ some p)
    (old_kek new_kek : List ℕ) where
  -- A row after the rotation: the same snapshot, whose key the new KEK opens as the old one did.
  pub record IsRewrapped (s s' : Snapshot) : Type 0 where
    pub same_id : s'.id ≡ s.id
    pub same_state : is_completed s'.estado ≡ is_completed s.estado
    pub opens :
        is_completed s.estado ≡ true
        → unwrap_dek decrypt utf8 new_kek s' ≡ unwrap_dek decrypt utf8 old_kek s

  abbrev rotate_all : List Snapshot → Option (ℕ × List Snapshot)
  rotate_all ss = rotate_kek encrypt decrypt utf8 new_nonce old_kek new_kek ss

  abbrev FirstRotated : Snapshot → List Snapshot → ℕ → List Snapshot → Type 0
  FirstRotated s ss n ss' =
      (m : ℕ) × (ts : List Snapshot) × (s' : Snapshot) × (rotate_all ss ≡ some (m, ts))
      × (ss' ≡ s' ∷ ts)
      × IsRewrapped s s'

  skipped-IsRewrapped : (s : Snapshot) → is_rotated s ≡ false → IsRewrapped s s
  skipped-IsRewrapped s e = record {
    same_id = refl;
    same_state = refl;
    opens = λ c. absurd (ground (arith, e, c));
  }

  rewrap-IsRewrapped :
      (dek : List ℕ) (s : Snapshot)
      → unwrap_dek decrypt utf8 old_kek s ≡ some dek
      → IsRewrapped s (rewrap encrypt decrypt utf8 new_nonce new_kek dek s)
  unfolding rewrap
  rewrap-IsRewrapped dek s opened = record {
    same_id = refl;
    same_state = refl;
    opens = λ c.
        rewrap_unwrap encrypt decrypt utf8 new_nonce decrypt-encrypt new_kek dek s ∙ sym opened;
  }

  other_lem :
      (s : Snapshot) (rest : Option (ℕ × List Snapshot)) {n : ℕ} {ss' : List Snapshot}
      → after_other s rest ≡ some (n, ss')
      → (m : ℕ) × (ts : List Snapshot) × (rest ≡ some (m, ts)) × (ss' ≡ s ∷ ts)
  other_lem s none e = absurd (cc)
  other_lem s (some (m, ts)) e = (m, ts, refl, cc)

  first_lem :
      (s : Snapshot) (rest : Option (ℕ × List Snapshot)) {n : ℕ} {ss' : List Snapshot}
      → after_first s rest ≡ some (n, ss')
      → (m : ℕ) × (ts : List Snapshot) × (rest ≡ some (m, ts)) × (ss' ≡ s ∷ ts)
  first_lem s none e = absurd (cc)
  first_lem s (some (m, ts)) e = (m, ts, refl, cc)

  rotate_kek-eq-some :
      (s : Snapshot) (ss : List Snapshot) {n : ℕ} {ss' : List Snapshot}
      → rotate_all (s ∷ ss) ≡ some (n, ss')
      → FirstRotated s ss n ss'
  unfolding rotate_kek
  rotate_kek-eq-some s ss {n} {ss'} e = elim (Bool-cases (is_rotated s)) [
    | inr skipped ↦
        let (m, ts, rest, made) = other_lem s (rotate_all ss) (rw skipped at e) in
        (m, ts, s, rest, made, skipped-IsRewrapped s skipped)
    | inl due ↦ elim (Option-cases (unwrap_dek decrypt utf8 old_kek s)) [
      | inl lost ↦ absurd (let e' = rw (due, lost) at e in cc)
      | inr (dek, opened) ↦
          let s' = rewrap encrypt decrypt utf8 new_nonce new_kek dek s in
          let (m, ts, rest, made) = first_lem s' (rotate_all ss) (rw (due, opened) at e) in
          (m, ts, s', rest, made, rewrap-IsRewrapped dek s opened)
    ]
  ]

  -- What an id finds before and after a rotation.
  pub data SameRow (j : String) (ss ss' : List Snapshot) : Type 0 where
    missing : first_such (has_id j) ss ≡ none → first_such (has_id j) ss' ≡ none → SameRow j ss ss'
    found :
        (s s' : Snapshot)
        → first_such (has_id j) ss ≡ some s
        → first_such (has_id j) ss' ≡ some s'
        → IsRewrapped s s'
        → SameRow j ss ss'

  later-SameRow :
      (j : String) (s s' : Snapshot) (ss ts : List Snapshot)
      → has_id j s ≡ false
      → has_id j s' ≡ false
      → SameRow j ss ts
      → SameRow j (s ∷ ss) (s' ∷ ts)
  later-SameRow j s s' ss ts e e' (missing a b) = missing (ground arith) (ground arith)
  later-SameRow j s s' ss ts e e' (found q q' a b r) = found q q' (ground arith) (ground arith) r

  pub rotate_kek-SameRow :
      (j : String) (ss : List Snapshot) {n : ℕ} {ss' : List Snapshot}
      → rotate_all ss ≡ some (n, ss')
      → SameRow j ss ss'
  unfolding rotate_kek
  rotate_kek-SameRow j [] {n} {ss'} e =
      let none_left : ss' ≡ [] = cc in missing refl (ap (first_such (has_id j)) none_left)
  rotate_kek-SameRow j (s ∷ ss) {n} {ss'} e =
      let (m, ts, s', rest, made, rewrapped) = rotate_kek-eq-some s ss e in
      let same : has_id j s' ≡ has_id j s = ap (λ i. str_eq i j) rewrapped.same_id in
      subst (SameRow j (s ∷ ss)) (sym made) (elim (Bool-cases (has_id j s)) [
        | inl is ↦ found s s' (ground arith) (ground (arith, same, is)) rewrapped
        | inr not_is ↦
            later-SameRow j s s' ss ts not_is (same ∙ not_is) (rotate_kek-SameRow j ss rest)
      ])
