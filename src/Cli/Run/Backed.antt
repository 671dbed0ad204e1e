-- ===== src/Cli/Run/Backed.antt =====
-- The catalogue and the bucket after a backup of src/boveda/cli.py, as `verify` and `restore` read
-- them.
use boveda_pyme.Prelude.{
  String, ◌≡◌, refl, ap, ◌∙◌, Bool, true, false, not, some, List, [], ◌∷◌, ◌++◌, arith, eq_iff,
  select, some_of, first_such, All, All-map,
}
use boveda_pyme.Catalog.{Snapshot, SnapshotChunk, Db, has_id, of_snapshot}
use boveda_pyme.Catalog.Valid.{IsValid, Owned, has_snapshot}
use boveda_pyme.Purge.{World}
use boveda_pyme.Retention.Expiry.{is_listed}
use boveda_pyme.Backup.Sound.{Content, IsSound}
use boveda_pyme.Cli.Finish.{with_row}

-- No link belongs to a snapshot that is not there.
fresh-links :
    (i : String) (ss : List Snapshot) (ls : List SnapshotChunk)
    → Owned ss ls
    → some_of (has_id i) ss ≡ false
    → All (λ l. of_snapshot i l ≡ false) ls
fresh-links i ss [] o e = tt
fresh-links i ss (l ∷ ls) o e = (
  ground
      (arith, o.0, eq_iff l.snapshot_id i, ap (λ j. has_snapshot j ss) {x = l.snapshot_id} {y = i}),
  fresh-links i ss ls o.1 e,
)

pub with_row-IsValid : (s : Snapshot) (w : World) → IsValid w.db → IsValid (with_row s w).db
with_row-IsValid s w v = record {
  counted = v.counted;
  distinct = v.distinct;
  linked = v.linked;
  owned = All-map _ _ w.db.snapshot_chunks (λ l e. still l.snapshot_id w.db.snapshots e) v.owned;
}
  where
    still :
        (j : String) (ss : List Snapshot)
        → has_snapshot j ss ≡ true
        → has_snapshot j (ss ++ s ∷ []) ≡ true
    still j [] e = absurd (cc)
    still j (q ∷ ss) e = ground (arith, still j ss)

pub with_row-IsSound :
    (C : Content) (s : Snapshot) (w : World) → IsSound C w → IsSound C (with_row s w)
with_row-IsSound C s w sound = record {
  valid = with_row-IsValid s w sound.valid;
  keyed = sound.keyed;
  stored = sound.stored;
}

kept-links :
    (i : String) (is : List String) (ls : List SnapshotChunk)
    → is_listed is i ≡ false
    → select (of_snapshot i) (select (λ l. not (is_listed is l.snapshot_id)) ls)
      ≡ select (of_snapshot i) ls
kept-links i is [] e = refl
kept-links i is (l ∷ ls) e = ground (
  arith,
  kept-links i is ls,
  eq_iff l.snapshot_id i,
  ap (is_listed is) {x = l.snapshot_id} {y = i},
)

none_of :
    (i : String) (ls : List SnapshotChunk)
    → All (λ l. of_snapshot i l ≡ false) ls
    → select (of_snapshot i) ls ≡ []
none_of i [] a = refl
none_of i (l ∷ ls) a = ground (arith, a.0, none_of i ls a.1)

-- A new id has no links after an expiry run that does not name it.
pub own_links :
    (i : String) (is : List String) (db : Db)
    → IsValid db
    → some_of (has_id i) db.snapshots ≡ false
    → is_listed is i ≡ false
    → select (of_snapshot i) (select (λ l. not (is_listed is l.snapshot_id)) db.snapshot_chunks)
      ≡ []
own_links i is db v e n =
    kept-links i is db.snapshot_chunks n
    ∙ none_of i db.snapshot_chunks (fresh-links i db.snapshots db.snapshot_chunks v.owned e)

-- The row of a new snapshot is found after rows that another test selects.
pub own_row :
    (i : String) (p : Snapshot → Bool) (s : Snapshot) (ss : List Snapshot)
    → s.id ≡ i
    → some_of (has_id i) ss ≡ false
    → first_such (has_id i) (select p ss ++ s ∷ []) ≡ some s
own_row i p s [] same e = ground (arith, same, eq_iff s.id i)
own_row i p s (q ∷ ss) same e = ground (arith, own_row i p s ss)
