-- ===== src/Cli/Run/Reads.antt =====
-- What `verify` and `restore` of src/boveda/cli.py read of a world: the row of the snapshot, its
-- links and their objects.
use boveda_pyme.Prelude.{
  ℕ, String, ◌≡◌, refl, ap, ◌∙◌, sym, subst, true, false, Option, none, some, List, [], ◌∷◌, map,
  All, All-map_of, Option-cases, inl, inr,
}
use boveda_pyme.Catalog.{SnapshotChunk}
use boveda_pyme.Purge.{World}
use boveda_pyme.Pipeline.{Encrypt}
use boveda_pyme.Backup.{chunk_key}
use boveda_pyme.Backup.Sound.{Anything, IsSound}
use boveda_pyme.Backup.Run.Spared.{Spares, SameObjects, links_of}
use boveda_pyme.Restore.{Bloque, Decrypt, sort_by_seq}
use boveda_pyme.Restore.Reads.{sort_by_seq-All, restore_snapshot_cong}
use boveda_pyme.Cli.{
  Catalogue, bloque_of_link, bloques_of, completed_snapshot, restore, echo_restore, Echo,
  no_snapshot, setting_of,
}
use boveda_pyme.Cli.Verify.{verify, check_full, check_all, verify_some}
use boveda_pyme.Cli.Sound.{FindsContent, snapshot_links-FindContent}

abbrev bloque_at : SnapshotChunk → Bloque
bloque_at l = record {
  chunk_seq = l.chunk_seq;
  storage_key = chunk_key l.chunk_hash;
  hash_sha256 = l.chunk_hash;
}

map-bloque_at :
    (w : World) (ls : List SnapshotChunk)
    → All (FindsContent Anything w) ls
    → map (bloque_of_link w.db.chunk_pool) ls ≡ map bloque_at ls
map-bloque_at w [] a = refl
map-bloque_at w (l ∷ ls) a = rw (a.0.key) (ap (◌∷◌ (bloque_at l)) (map-bloque_at w ls a.1))

bloques_of_lem :
    (j : String) (w : World)
    → IsSound Anything w
    → bloques_of j w.db ≡ sort_by_seq (map bloque_at (links_of j w.db))
unfolding bloques_of
bloques_of_lem j w s =
    ap sort_by_seq (map-bloque_at w (links_of j w.db) (snapshot_links-FindContent Anything j w s))

bloques_spared :
    (j : String) (w w' : World)
    → IsSound Anything w
    → Spares j w w'
    → bloques_of j w'.db ≡ bloques_of j w.db
bloques_spared j w w' s k =
    bloques_of_lem j w' k.sound
    ∙ ap (λ ls. sort_by_seq (map bloque_at ls)) k.links
    ∙ sym (bloques_of_lem j w s)

downloads_spared :
    (j : String) (w w' : World)
    → IsSound Anything w
    → Spares j w w'
    → All (λ b. w'.s3 b.storage_key ≡ w.s3 b.storage_key) (bloques_of j w.db)
downloads_spared j w w' s k =
    subst (All (λ b. w'.s3 b.storage_key ≡ w.s3 b.storage_key)) (sym (bloques_of_lem j w s)) (
      sort_by_seq-All (λ b. w'.s3 b.storage_key ≡ w.s3 b.storage_key) _
        (All-map_of bloque_at (λ b. w'.s3 b.storage_key ≡ w.s3 b.storage_key) (links_of j w.db)
          k.objects))

row_spared :
    (j : String) (w w' : World)
    → Spares j w w'
    → completed_snapshot j w'.db ≡ completed_snapshot j w.db
row_spared j w w' k = rw (completed_snapshot, k.row) refl

module _ (derive_kek : String → String → List ℕ) (encrypt : Encrypt) (decrypt : Decrypt)
    (sha256 : List ℕ → String) (utf8 : String → List ℕ) where
  -- A snapshot that is spared restores the same.
  pub restore_spared :
      (passphrase j : String) (c : Catalogue) (w' : World)
      → IsSound Anything c.world
      → Spares j c.world w'
      → restore derive_kek encrypt decrypt sha256 utf8 passphrase j (record c { world = w' })
        ≡ restore derive_kek encrypt decrypt sha256 utf8 passphrase j c
  unfolding restore
  restore_spared passphrase j c w' s k =
      let blocks = bloques_spared j c.world w' s k in
      let downloads = downloads_spared j c.world w' s k in
      let found = row_spared j c.world w' k in
      elim (Option-cases (completed_snapshot j c.world.db)) [
        | inl missing ↦ let missing' = found ∙ missing in rw (restore, missing, missing') refl
        | inr (q, there) ↦
            let there' = found ∙ there in
            elim (Option-cases (setting_of "master_salt" c.configuracion)) [
              | inl no_salt_there ↦ rw (restore, there, there', no_salt_there) refl
              | inr (salt, has_salt) ↦
                  rw (restore, there, there', has_salt, blocks)
                    (ap (echo_restore derive_kek encrypt decrypt sha256 utf8) (
                      restore_snapshot_cong decrypt sha256 utf8 c.world.s3 w'.s3 q
                        (derive_kek passphrase salt.valor) (bloques_of j c.world.db) downloads))
            ]
      ]

check_spared :
    (sha256 : List ℕ → String) (w w' : World) (ls : List SnapshotChunk)
    → All (FindsContent Anything w) ls
    → All (FindsContent Anything w') ls
    → SameObjects w.s3 w'.s3 ls
    → check_all (check_full sha256 w'.s3 w'.db.chunk_pool) ls
      ≡ check_all (check_full sha256 w.s3 w.db.chunk_pool) ls
unfolding check_all check_full
check_spared sha256 w w' [] a b o = refl
check_spared sha256 w w' (l ∷ ls) a b o =
    let rest = check_spared sha256 w w' ls a.1 b.1 o.1 in
    let same = ap w'.s3 b.0.key ∙ o.0 ∙ sym (ap w.s3 a.0.key) in
    let checked : check_full sha256 w'.s3 w'.db.chunk_pool l
        ≡ check_full sha256 w.s3 w.db.chunk_pool l =
      rw (same, check_full) refl in
    rw (checked, rest) refl

verify_some_spared :
    (sha256 : List ℕ → String) (bucket : Option String) (c : Catalogue) (w' : World)
    (ls : List SnapshotChunk)
    → check_all (check_full sha256 w'.s3 w'.db.chunk_pool) ls
      ≡ check_all (check_full sha256 c.world.s3 c.world.db.chunk_pool) ls
    → verify_some sha256 false bucket (record c { world = w' }) ls
      ≡ verify_some sha256 false bucket c ls
verify_some_spared sha256 bucket c w' [] e = refl
verify_some_spared sha256 bucket c w' (l ∷ ls) e = rw e refl

-- The full check of a snapshot that is spared answers the same.
pub verify_spared :
    (sha256 : List ℕ → String) (bucket : Option String) (j : String) (c : Catalogue) (w' : World)
    → IsSound Anything c.world
    → Spares j c.world w'
    → verify sha256 false true bucket j (record c { world = w' })
      ≡ verify sha256 false true bucket j c
unfolding verify
verify_spared sha256 bucket j c w' s k =
    let found = row_spared j c.world w' k in
    let links = links_of j c.world.db in
    let checked =
      check_spared sha256 c.world w' links (snapshot_links-FindContent Anything j c.world s)
        (subst (All (FindsContent Anything w')) k.links
          (snapshot_links-FindContent Anything j w' k.sound))
        k.objects in
    rw k.row (
      ap
        (λ v. elim (completed_snapshot j c.world.db) as (λ _. Echo) [
          | none ↦ no_snapshot
          | some q ↦ v
        ])
        (ap (verify_some sha256 false bucket (record c { world = w' })) k.links
          ∙ verify_some_spared sha256 bucket c w' links checked))
