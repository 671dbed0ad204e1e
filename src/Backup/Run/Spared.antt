-- ===== src/Backup/Run/Spared.antt =====
-- What the uploads of a backup leave alone, however they end.
use boveda_pyme.Prelude.{
  Option, first_such, some_of, ◌&&◌, ℕ, String, ◌≡◌, ◌≢◌, refl, ap, ◌∙◌, sym, subst, Bool, true,
  false, inl, inr, List, [], ◌∷◌, ◌++◌, arith, eq_iff, select, All, All-map, All-zip, All-intro,
  All-select_if, Bool-cases, Result-cases, ok,
}
use boveda_pyme.Catalog.{Snapshot, has_id, is_expired, SnapshotChunk, Db, of_snapshot, insert_link}
use boveda_pyme.Catalog.Refs.{refs}
use boveda_pyme.Catalog.Valid.{links-refs}
use boveda_pyme.Catalog.Statements.{insert_link-IsValid, insert_link-eq-ok}
use boveda_pyme.Purge.{World, ObjectStore}
use boveda_pyme.Pipeline.{Upload}
use boveda_pyme.Backup.{
  PutObject, chunk_key, new_link, save_chunk_ref, upload_and_link, upload_callback,
}
use boveda_pyme.Backup.Rows.{Keyed, chunk_key-injective}
use boveda_pyme.Backup.Sound.{Anything, IsSound, IsPrepared}
use boveda_pyme.Backup.Upload.{prepare_lem}
use boveda_pyme.Backup.Link.{link-Keyed}
use boveda_pyme.Backup.Run.{upload_all}

-- An upload touches no other key, whether it returns or raises.
abbrev pub PutsOneKey : PutObject → Type 0
PutsOneKey put_object =
    (k j : String) (p : List ℕ) (s3 : ObjectStore) → j ≢ k → (put_object k p s3).1 j ≡ s3 j

abbrev pub links_of : String → Db → List SnapshotChunk
links_of j db = select (of_snapshot j) db.snapshot_chunks

-- The objects of some links are as they were.
abbrev pub SameObjects : ObjectStore → ObjectStore → List SnapshotChunk → Type 0
SameObjects s3 s3' ls = All (λ l. s3' (chunk_key l.chunk_hash) ≡ s3 (chunk_key l.chunk_hash)) ls

-- Whether a snapshot is to be removed by the retention run, and the row that an id finds.
abbrev pub is_due : String → Db → Bool
is_due j db = some_of (λ s. has_id j s && is_expired s.estado) db.snapshots

abbrev pub row_of_id : String → Db → Option Snapshot
row_of_id j db = first_such (has_id j) db.snapshots

-- From one world to another, the row of a snapshot, its links and their objects are as they were.
pub record Spares (j : String) (w w' : World) : Type 0 where
  pub sound : IsSound Anything w'
  pub row : row_of_id j w'.db ≡ row_of_id j w.db
  pub not_due : is_due j w.db ≡ false → is_due j w'.db ≡ false
  pub links : links_of j w'.db ≡ links_of j w.db
  pub objects : SameObjects w.s3 w'.s3 (links_of j w.db)

pub Spares-refl : (j : String) (w : World) → IsSound Anything w → Spares j w w
Spares-refl j w s = record {
  sound = s;
  row = refl;
  not_due = λ e. e;
  links = refl;
  objects = All-intro _ (links_of j w.db) (λ l. refl);
}

pub Spares-trans : (j : String) (u v w : World) → Spares j u v → Spares j v w → Spares j u w
Spares-trans j u v w a b = record {
  sound = b.sound;
  row = b.row ∙ a.row;
  not_due = λ e. b.not_due (a.not_due e);
  links = b.links ∙ a.links;
  objects =
      All-map _ _ (links_of j u.db) (λ l o. o.1 ∙ o.0)
        (All-zip _ _ (links_of j u.db) a.objects (subst (SameObjects v.s3 w.s3) a.links b.objects));
}

append-links_of :
    (j : String) (l : SnapshotChunk) (ls : List SnapshotChunk)
    → of_snapshot j l ≡ false
    → select (of_snapshot j) (ls ++ l ∷ []) ≡ select (of_snapshot j) ls
append-links_of j l [] e = ground arith
append-links_of j l (k ∷ ls) e = ground (arith, append-links_of j l ls)

save_chunk_ref-Spares :
    (j : String) (now : ℕ) (i : String) (n : ℕ) (h : String) (w : World)
    → i ≢ j
    → IsSound Anything w
    → Spares j w (save_chunk_ref false now i n h w).1
unfolding save_chunk_ref
save_chunk_ref-Spares j now i n h w ne s =
    elim (Result-cases (insert_link now (new_link now i n h) w.db)) [
      | inl (db, done) ↦ rw done (linked db done)
      | inr (x, refused) ↦ rw refused (Spares-refl j w s)
    ]
  where
    linked :
        (db : Db)
        → insert_link now (new_link now i n h) w.db ≡ ok db
        → Spares j w (record w { db = db })
    linked db done =
        let e = insert_link-eq-ok now (new_link now i n h) w.db done in
        record {
          sound = record {
            valid = insert_link-IsValid now (new_link now i n h) w.db s.valid done;
            keyed =
                subst (λ (d : Db). Keyed d.chunk_pool) e (link-Keyed now h w.db.chunk_pool s.keyed);
            stored = All-intro _ db.chunk_pool (λ r a. tt);
          };
          row = ap (row_of_id j) (sym e);
          not_due = λ d. ap (is_due j) (sym e) ∙ d;
          links =
              ap (links_of j) (sym e)
              ∙ append-links_of j (new_link now i n h) w.db.snapshot_chunks
                  (ground (arith, eq_iff i j));
          objects = All-intro _ (links_of j w.db) (λ l. refl);
        }

-- What was committed before the link.
prepared-Spares :
    (j h : String) (w : World) (p : String × Bool × Db) (s3 : ObjectStore)
    → IsPrepared Anything h w.db w.s3 p
    → SameObjects w.s3 s3 (links_of j w.db)
    → Spares j w (record { db = p.2; s3 = s3 })
prepared-Spares j h w p s3 a o = record {
  sound = record {
    valid = a.valid;
    keyed = a.keyed;
    stored = All-intro _ p.2.chunk_pool (λ r b. tt);
  };
  row = ap (first_such (has_id j)) a.same_snapshots;
  not_due = λ d. ap (some_of (λ s. has_id j s && is_expired s.estado)) a.same_snapshots ∙ d;
  links = ap (select (of_snapshot j)) a.same_links;
  objects = o;
}

-- A put for a hash without links touches the object of no link.
put-SameObjects :
    (put_object : PutObject) (j h : String) (payload : List ℕ) (w : World)
    → PutsOneKey put_object
    → refs h w.db.snapshot_chunks ≡ 0
    → SameObjects w.s3 (put_object (chunk_key h) payload w.s3).1 (links_of j w.db)
put-SameObjects put_object j h payload w f z =
    All-select_if _ (of_snapshot j) w.db.snapshot_chunks (
      All-map _ _ w.db.snapshot_chunks
        (λ l n m. f (chunk_key h) (chunk_key l.chunk_hash) payload w.s3 (λ e.
          let same = chunk_key-injective l.chunk_hash h e in
          let none_of_it = ap (λ k. refs k w.db.snapshot_chunks) same in ground (arith, n)))
        (links-refs w.db.snapshot_chunks))

upload_and_link-Spares :
    (put_object : PutObject) (j : String) (now : ℕ) (i : String) (n : ℕ) (payload : List ℕ)
    (h : String) (w : World) (b : Bool) (db : Db)
    → PutsOneKey put_object
    → i ≢ j
    → IsPrepared Anything h w.db w.s3 (chunk_key h, b, db)
    → Spares j w (upload_and_link false put_object now i n payload h (chunk_key h, b, db) w.s3).1
unfolding upload_and_link
upload_and_link-Spares put_object j now i n payload h w false db f ne a =
    let v : World = record { db = db; s3 = w.s3 } in
    let kept =
      prepared-Spares j h w (chunk_key h, false, db) w.s3 a
        (All-intro _ (links_of j w.db) (λ l. refl)) in
    Spares-trans j w v (save_chunk_ref false now i n h v).1 kept
      (save_chunk_ref-Spares j now i n h v ne kept.sound)
upload_and_link-Spares put_object j now i n payload h w true db f ne a =
    let v : World = record { db = db; s3 = (put_object (chunk_key h) payload w.s3).1 } in
    let kept =
      prepared-Spares j h w (chunk_key h, true, db) v.s3 a
        (put-SameObjects put_object j h payload w f (a.unlinked refl)) in
    elim (Bool-cases (put_object (chunk_key h) payload w.s3).0) [
      | inl done ↦ rw done (
          Spares-trans j w v (save_chunk_ref false now i n h v).1 kept
            (save_chunk_ref-Spares j now i n h v ne kept.sound))
      | inr failed ↦ rw failed kept
    ]

-- However an upload ends on an engine that does not begin transactions itself, the links of another snapshot and their objects stay as they were.
pub upload_callback-Spares :
    (put_object : PutObject) (j : String) (now : ℕ) (i : String) (n : ℕ) (payload : List ℕ)
    (h : String) (w : World)
    → PutsOneKey put_object
    → i ≢ j
    → IsSound Anything w
    → Spares j w (upload_callback false put_object now i n payload h w).1
unfolding upload_callback
upload_callback-Spares put_object j now i n payload h w f ne s =
    let ((key, b, db), returns, a) = prepare_lem Anything now h payload w s in
    rw returns (
      subst
        (λ k.
          IsPrepared Anything h w.db w.s3 (k, b, db)
          → Spares j w (upload_and_link false put_object now i n payload h (k, b, db) w.s3).1)
        (sym a.key) (upload_and_link-Spares put_object j now i n payload h w b db f ne) a)

-- However the uploads of a backup end, and whether or not the engine begins transactions itself: the
-- links of another snapshot and their objects stay as they were.
pub upload_all-Spares :
    (begins : Bool) (put_object : PutObject) (j : String) (now : ℕ) (i : String) (us : List Upload)
    (w : World)
    → PutsOneKey put_object
    → i ≢ j
    → IsSound Anything w
    → Spares j w (upload_all begins put_object now i us w).1
unfolding upload_all
upload_all-Spares begins put_object j now i [] w f ne s = Spares-refl j w s
upload_all-Spares true put_object j now i (u ∷ us) w f ne s = Spares-refl j w s
upload_all-Spares false put_object j now i (u ∷ us) w f ne s =
    let w' = (upload_callback false put_object now i u.chunk_seq u.payload u.chunk_hash w).1 in
    let one =
      upload_callback-Spares put_object j now i u.chunk_seq u.payload u.chunk_hash w f ne s in
    elim (Result-cases
      (upload_callback false put_object now i u.chunk_seq u.payload u.chunk_hash w).0) [
        | inl (_, returned) ↦
            rw (returned, upload_all)
              (Spares-trans j w w' (upload_all false put_object now i us w').1 one
                (upload_all-Spares false put_object j now i us w' f ne one.sound))
        | inr (e, raised) ↦ rw (raised, upload_all) one
      ]
