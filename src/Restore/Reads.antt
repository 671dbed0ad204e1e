-- ===== src/Restore/Reads.antt =====
-- What a restore of src/boveda/restore.py reads of the bucket: the objects of its bloques.
use boveda_pyme.Prelude.{
  ℕ, String, ◌≡◌, refl, ap, ◌∙◌, true, Option, List, [], ◌∷◌, leb, All, Bool-cases, inl, inr,
  Result-cases, Option-cases, ◌>>=◌,
}
use boveda_pyme.Catalog.{Snapshot}
use boveda_pyme.Restore.{
  Bloque, Decrypt, insert_by_seq, sort_by_seq, restore_bloque, restore_bloques, restore_snapshot,
  or_raise, download_failed, unwrap_dek, is_completed, open_chunk, and_write,
}

insert-All {κ} :
    (P : Bloque → Type κ) (b : Bloque) (bs : List Bloque)
    → P b
    → All P bs
    → All P (insert_by_seq b bs)
unfolding insert_by_seq
insert-All P b [] p a = (p, tt)
insert-All P b (c ∷ bs) p a = elim (Bool-cases (leb b.chunk_seq c.chunk_seq)) [
  | inl first ↦ rw first (p, a)
  | inr later ↦ rw later (a.0, insert-All P b bs p a.1)
]

pub sort_by_seq-All {κ} :
    (P : Bloque → Type κ) (bs : List Bloque) → All P bs → All P (sort_by_seq bs)
unfolding sort_by_seq
sort_by_seq-All P [] a = tt
sort_by_seq-All P (b ∷ bs) a = insert-All P b (sort_by_seq bs) a.0 (sort_by_seq-All P bs a.1)

module _ (decrypt : Decrypt) (sha256 : List ℕ → String) (utf8 : String → List ℕ)
    (download download' : String → Option (List ℕ)) where
  abbrev SameDownload : Bloque → Type 0
  SameDownload b = download' b.storage_key ≡ download b.storage_key

  restore_bloques_cong :
      (dek : List ℕ) (i : String) (bs : List Bloque)
      → All SameDownload bs
      → restore_bloques decrypt sha256 utf8 download' dek i bs
        ≡ restore_bloques decrypt sha256 utf8 download dek i bs
  unfolding restore_bloques restore_bloque
  restore_bloques_cong dek i [] a = refl
  restore_bloques_cong dek i (b ∷ bs) a =
      let rest = restore_bloques_cong dek i bs a.1 in
      let same : restore_bloque decrypt sha256 utf8 download' dek i b
          ≡ restore_bloque decrypt sha256 utf8 download dek i b =
        ap (λ o. or_raise download_failed o >>= open_chunk decrypt sha256 utf8 dek i b) a.0 in
      elim (Result-cases (restore_bloque decrypt sha256 utf8 download dek i b)) [
        | inl (plaintext, opened) ↦
            let opened' = same ∙ opened in
            rw (opened, opened', restore_bloques) (ap (and_write plaintext) rest)
        | inr (e, raised) ↦
            let raised' = same ∙ raised in rw (raised, raised', restore_bloques) refl
      ]

  -- Two buckets with the same objects for the bloques restore the same.
  pub restore_snapshot_cong :
      (s : Snapshot) (kek : List ℕ) (bs : List Bloque)
      → All SameDownload bs
      → restore_snapshot decrypt sha256 utf8 download' s kek true bs
        ≡ restore_snapshot decrypt sha256 utf8 download s kek true bs
  unfolding restore_snapshot
  restore_snapshot_cong s kek bs a = elim (Bool-cases (is_completed s.estado)) [
    | inl is ↦ elim (Option-cases (unwrap_dek decrypt utf8 kek s)) [
      | inl shut ↦ rw (is, shut) refl
      | inr (dek, opened) ↦
          rw (is, opened)
            (restore_bloques_cong dek s.id (sort_by_seq bs) (sort_by_seq-All SameDownload bs a))
    ]
    | inr not_is ↦ rw not_is refl
  ]
