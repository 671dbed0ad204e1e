-- ===== src/Migration/Applied.antt =====
-- What the migration does to a schema.
use text.Mathlib.TextPositions.{eq_refl}
use boveda_pyme.Prelude.{
  String, ◌≡◌, refl, ap, ◌∙◌, true, false, not, ◌||◌, List, [], ◌∷◌, ◌++◌, arith, select, ok, err,
}
use boveda_pyme.Migration.{
  Table, configuracion, snapshots, bloques, is_named, has_table, create_table, drop_table, upgrade,
  downgrade, create_missing, create_all, table_exists, chunk_pool, snapshot_chunks,
}

append-has_table :
    (n : String) (s : List Table) (t : Table)
    → has_table n (s ++ t ∷ []) ≡ (has_table n s || is_named n t)
append-has_table n [] t = ground arith
append-has_table n (u ∷ s) t = ground (arith, append-has_table n s t)

select-unnamed :
    (n : String) (s : List Table) → has_table n s ≡ false → select (λ t. not (is_named n t)) s ≡ s
select-unnamed n [] e = refl
select-unnamed n (t ∷ s) e = ground (arith, select-unnamed n s)

-- Dropping the table that was created last gives the schema back.
drop_last :
    (n : String) (s : List Table) (t : Table)
    → has_table n s ≡ false
    → is_named n t ≡ true
    → drop_table n (s ++ t ∷ []) ≡ ok s
unfolding drop_table
drop_last n s t e m =
    let there : has_table n (s ++ t ∷ []) ≡ true = ground (arith, append-has_table n s t) in
    rw there (ap ok (without s e))
  where
    without :
        (s : List Table)
        → has_table n s ≡ false
        → select (λ t. not (is_named n t)) (s ++ t ∷ []) ≡ s
    without [] e = ground arith
    without (u ∷ s) e = ground (arith, without s)

-- On a schema without its three tables the migration succeeds, and its downgrade gives the schema
-- back.
pub downgrade-upgrade :
    (s : List Table)
    → has_table "configuracion" s ≡ false
    → has_table "snapshots" s ≡ false
    → has_table "bloques" s ≡ false
    → (s' : List Table) × (upgrade s ≡ ok s') × (downgrade s' ≡ ok s)
unfolding upgrade downgrade create_table
downgrade-upgrade s c n b =
    let s₁ = s ++ configuracion ∷ [] in
    let s₂ = s₁ ++ snapshots ∷ [] in
    let n₁ : has_table "snapshots" s₁ ≡ false =
      append-has_table "snapshots" s configuracion ∙ ground arith in
    let b₁ : has_table "bloques" s₁ ≡ false =
      append-has_table "bloques" s configuracion ∙ ground arith in
    let b₂ : has_table "bloques" s₂ ≡ false =
      append-has_table "bloques" s₁ snapshots ∙ ground arith in
    (
      s₂ ++ bloques ∷ [],
      rw (c, n₁, b₂) refl,
      rw
          (
            drop_last "bloques" s₂ bloques b₂ refl,
            drop_last "snapshots" s₁ snapshots n₁ refl,
            drop_last "configuracion" s configuracion c refl,
          )
          refl,
    )

create_missing-has_table :
    (t : Table) (s : List Table) → has_table t.name (create_missing t s) ≡ true
unfolding create_missing
create_missing-has_table t s =
    let added = append-has_table t.name s t in let same = eq_refl t.name in ground arith

create_missing-keeps :
    (n : String) (t : Table) (s : List Table)
    → has_table n s ≡ true
    → has_table n (create_missing t s) ≡ true
unfolding create_missing
create_missing-keeps n t s e = let added = append-has_table n s t in ground arith

create_missing_again :
    (t : Table) (s : List Table) → has_table t.name s ≡ true → create_missing t s ≡ s
unfolding create_missing
create_missing_again t s e = rw e refl

-- Once the tables of the models are there, creating them again changes nothing, and the migration is
-- refused at its first table.
pub create_all-create_all :
    (s : List Table)
    → (create_all (create_all s) ≡ create_all s)
      × (upgrade (create_all s) ≡ err (table_exists "configuracion"))
unfolding create_all upgrade create_table
create_all-create_all s =
    let s₁ = create_missing snapshots s in
    let s₂ = create_missing chunk_pool s₁ in
    let s₃ = create_missing snapshot_chunks s₂ in
    let s₄ = create_missing configuracion s₃ in
    let c₄ : has_table "configuracion" s₄ ≡ true = create_missing-has_table configuracion s₃ in
    let l₄ : has_table "snapshot_chunks" s₄ ≡ true =
      create_missing-keeps "snapshot_chunks" configuracion s₃
        (create_missing-has_table snapshot_chunks s₂) in
    let p₄ : has_table "chunk_pool" s₄ ≡ true = create_missing-keeps "chunk_pool" configuracion s₃ (
      create_missing-keeps "chunk_pool" snapshot_chunks s₂
        (create_missing-has_table chunk_pool s₁)) in
    let n₄ : has_table "snapshots" s₄ ≡ true = create_missing-keeps "snapshots" configuracion s₃ (
      create_missing-keeps "snapshots" snapshot_chunks s₂
        (create_missing-keeps "snapshots" chunk_pool s₁ (create_missing-has_table snapshots s))) in
    (
      ap
            (λ r.
              create_missing configuracion
                (create_missing snapshot_chunks (create_missing chunk_pool r)))
            (create_missing_again snapshots s₄ n₄)
          ∙ ap (λ r. create_missing configuracion (create_missing snapshot_chunks r))
              (create_missing_again chunk_pool s₄ p₄)
          ∙ ap (create_missing configuracion) (create_missing_again snapshot_chunks s₄ l₄)
          ∙ create_missing_again configuracion s₄ c₄,
      rw c₄ refl,
    )
