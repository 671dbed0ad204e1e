-- ===== src/Retention/Classify/Ends.antt =====
-- The ends of the lists that classify_snapshots of src/boveda/retention.py sorts by timestamp.
use mathlib.Core.List.{Memᴰ}
use boveda_pyme.Prelude.{
  ◌≤◌, ◌≡◌, ◌⊎◌, inl, inr, refl, sym, ap, some, List, [], ◌∷◌, leb, if◌then◌else◌, All, arith,
  All-map, Bool-cases,
}
use boveda_pyme.Catalog.{Snapshot}
use boveda_pyme.Retention.Classify.{insert_ascending, sort_by_timestamp, first_of, last_of}
use mathlib.Core.List.Memᴰ

-- A member of a list at one of its ends, by a relation on the timestamps.
abbrev pub IsEnd : (Snapshot → Snapshot → Type 0) → Snapshot → List Snapshot → Type 0
IsEnd R r ss = Memᴰ r ss × All (R r) ss

abbrev pub IsOldest : Snapshot → List Snapshot → Type 0
IsOldest r ss = IsEnd (λ r q. r.timestamp ≤ q.timestamp) r ss

abbrev pub IsNewest : Snapshot → List Snapshot → Type 0
IsNewest r ss = IsEnd (λ r q. q.timestamp ≤ r.timestamp) r ss

insert_first :
    (s r : Snapshot) (l : List Snapshot)
    → first_of l ≡ some r
    → first_of (insert_ascending s l) ≡ some (if leb s.timestamp r.timestamp then s else r)
unfolding insert_ascending
insert_first s r [] e = absurd (cc)
insert_first s r (q ∷ l) e =
    let same : q ≡ r = cc in
    rw (sym same)
      (elim (Bool-cases (leb s.timestamp q.timestamp)) [ inl h ↦ rw h refl | inr h ↦ rw h refl ])

pub first_sorted :
    (s : Snapshot) (ss : List Snapshot)
    → (r : Snapshot) × (first_of (sort_by_timestamp (s ∷ ss)) ≡ some r) × IsOldest r (s ∷ ss)
unfolding sort_by_timestamp
first_sorted s [] = (s, refl, (Memᴰ.head refl, (omega arith, tt)))
first_sorted s (q ∷ ss) =
    let (r, e, (m, a)) = first_sorted q ss in
    let first = insert_first s r (sort_by_timestamp (q ∷ ss)) e in
    elim (Bool-cases (leb s.timestamp r.timestamp)) [
      | inl h ↦ (
        s,
        rw h at first,
        (
          Memᴰ.head refl,
          (
            omega arith,
            All-map (λ x. r.timestamp ≤ x.timestamp) (λ x. s.timestamp ≤ x.timestamp) (q ∷ ss)
                (λ x older. ground arith) a,
          ),
        ),
      )
      | inr h ↦ (r, rw h at first, (Memᴰ.tail m, (ground arith, a)))
    ]

-- The last of a list after an insertion.
record IsLastAfter (s r r' : Snapshot) (l : List Snapshot) : Type 0 where
  last : last_of l ≡ some r'
  which : (r' ≡ r) ⊎ (r' ≡ s)
  old : r.timestamp ≤ r'.timestamp
  new : s.timestamp ≤ r'.timestamp

last-cons : (q r : Snapshot) (l : List Snapshot) → last_of l ≡ some r → last_of (q ∷ l) ≡ some r
last-cons q r [] e = absurd (cc)
last-cons q r (p ∷ l) e = e

-- A bound on a list and on what is put in it.
All-insert :
    (P : Snapshot → Type 0) (s : Snapshot) (l : List Snapshot)
    → P s
    → All P l
    → All P (insert_ascending s l)
unfolding insert_ascending
All-insert P s [] h a = (h, tt)
All-insert P s (q ∷ l) h a = elim (Bool-cases (leb s.timestamp q.timestamp)) [
  | inl c ↦ rw c (h, a)
  | inr c ↦ rw c (a.0, All-insert P s l h a.1)
]

insert_last :
    (s r : Snapshot) (l : List Snapshot)
    → last_of l ≡ some r
    → All (λ q. q.timestamp ≤ r.timestamp) l
    → (r' : Snapshot) × IsLastAfter s r r' (insert_ascending s l)
unfolding insert_ascending
insert_last s r [] e a = absurd (cc)
insert_last s r (q ∷ []) e a =
    let same : q ≡ r = cc in
    let time = ap (λ x. x.timestamp) same in
    elim (Bool-cases (leb s.timestamp q.timestamp)) [
      | inl h ↦
          (r, record { last = rw h e; which = inl refl; old = omega arith; new = ground arith })
      | inr h ↦
          (s, record { last = rw h refl; which = inr refl; old = ground arith; new = omega arith })
    ]
insert_last s r (q ∷ p ∷ l) e a = elim (Bool-cases (leb s.timestamp q.timestamp)) [
  | inl h ↦
      (r, record { last = rw h e; which = inl refl; old = omega arith; new = ground (arith, a.0) })
  | inr h ↦
      (let (r', i) = insert_last s r (p ∷ l) e a.1 in
        (
          r',
          record {
            last = rw h (last-cons q r' (insert_ascending s (p ∷ l)) i.last);
            which = i.which;
            old = i.old;
            new = i.new;
          },
        ))
]

pub last_sorted :
    (s : Snapshot) (ss : List Snapshot)
    → (r : Snapshot) × (last_of (sort_by_timestamp (s ∷ ss)) ≡ some r)
      × All (λ q. q.timestamp ≤ r.timestamp) (sort_by_timestamp (s ∷ ss))
      × IsNewest r (s ∷ ss)
unfolding sort_by_timestamp
last_sorted s [] = (s, refl, (omega arith, tt), (Memᴰ.head refl, (omega arith, tt)))
last_sorted s (q ∷ ss) =
    let (r, e, sorted, (m, a)) = last_sorted q ss in
    let (r', i) = insert_last s r (sort_by_timestamp (q ∷ ss)) e sorted in
    let grow : (x : Snapshot) → x.timestamp ≤ r.timestamp → x.timestamp ≤ r'.timestamp =
      λ x h. omega (arith, i.old) in
    let below = λ (l : List Snapshot).
      All-map (λ x. x.timestamp ≤ r.timestamp) (λ x. x.timestamp ≤ r'.timestamp) l grow in
    (
      r',
      i.last,
      All-insert (λ x. x.timestamp ≤ r'.timestamp) s (sort_by_timestamp (q ∷ ss)) i.new
          (below (sort_by_timestamp (q ∷ ss)) sorted),
      (
        elim i.which [ inl same ↦ Memᴰ.tail (Memᴰ.cast same m) | inr same ↦ Memᴰ.head same ],
        (i.new, below (q ∷ ss) a),
      ),
    )
