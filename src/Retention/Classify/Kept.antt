-- ===== src/Retention/Classify/Kept.antt =====
-- What classify_snapshots of src/boveda/retention.py never gives up.
use text.Mathlib.TextPositions.{eq_refl}
use boveda_pyme.Prelude.{
  ℕ, suc, zero, ◌<◌, ◌≡◌, ◌⊎◌, inl, inr, refl, sym, ap, ◌∙◌, String, Bool, true, false, not, ◌&&◌,
  ◌||◌, Option, some, List, [], ◌∷◌, ◌++◌, map, select, All, arith, eq_iff, All-map, Bool-cases,
  ltb, ltb→lt,
}
use boveda_pyme.Catalog.{Snapshot, is_completed}
use boveda_pyme.Retention.Expiry.{is_listed}
use boveda_pyme.Retention.Classify.{
  id_of, protect, retention_weekly, retention_monthly, in_month, in_week, is_recent, protected,
  classify_snapshots, monthly, weekly,
}
use boveda_pyme.Retention.Classify.Ends.{IsOldest, IsNewest, first_sorted, last_sorted}

-- What a list of ids protects is in no selection of the others.
spared :
    (is : List String) (j : String) (ss : List Snapshot)
    → is_listed is j ≡ true
    → is_listed
        (map (λ s. s.id) (select (λ s. not (is_listed is s.id) && is_completed s.estado) ss))
        j
      ≡ false
spared is j [] h = refl
spared is j (s ∷ ss) h = ground (arith, eq_iff j s.id, spared is j ss h)

is_listed-append :
    (is js : List String) (j : String) → is_listed (is ++ js) j ≡ (is_listed is j || is_listed js j)
is_listed-append [] js j = refl
is_listed-append (i ∷ is) js j = ground (arith, is_listed-append is js j)

protect_listed :
    (n k : ℕ) (pick : ℕ → Option Snapshot) (r : Snapshot)
    → k < n
    → pick k ≡ some r
    → is_listed (protect n pick) r.id ≡ true
unfolding protect
protect_listed zero k pick r b e = absurd (omega arith)
protect_listed (suc n) k pick r b e =
    let parts = is_listed-append (protect n pick) (id_of (pick n)) r.id in
    elim (Bool-cases (ltb k n)) [
      | inl h ↦
          (let rest = protect_listed n k pick r (ltb→lt k n h) e in ground (arith, parts, rest))
      | inr h ↦
          (let last : k ≡ n = ground arith in
            let here = eq_refl r.id in
            let picked : pick n ≡ some r = ap pick (sym last) ∙ e in
            parts ∙ rw picked (ground arith))
    ]

is_listed-either :
    (is js ks : List String) (j : String)
    → (is_listed is j ≡ true) ⊎ ((is_listed js j ≡ true) ⊎ (is_listed ks j ≡ true))
    → is_listed (is ++ js ++ ks) j ≡ true
is_listed-either is js ks j h =
    let first = is_listed-append (is ++ js) ks j in
    let second = is_listed-append is js j in ground arith

-- A selection that is not empty has a member at its end whose id is in no list of ids.
abbrev pub Keeps : (Snapshot → List Snapshot → Type 0) → List String → List Snapshot → Type 0
Keeps End ids [] = Unit
Keeps End ids (s ∷ ss) = (r : Snapshot) × End r (s ∷ ss) × (is_listed ids r.id ≡ false)

All-select : (p : Snapshot → Bool) (ss : List Snapshot) → All (λ s. p s ≡ true) (select p ss)
All-select p [] = tt
All-select p (s ∷ ss) = chosen (All-select p ss) (p s) refl
  where
    chosen :
        All (λ q. p q ≡ true) (select p ss)
        → (b : Bool) → p s ≡ b
        → All
            (λ q. p q ≡ true)
            (elim b as (λ _. List Snapshot) [ true ↦ s ∷ select p ss | false ↦ select p ss ])
    chosen rest true e = (e, rest)
    chosen rest false e = rest

All-mapped : (ss : List Snapshot) → All (λ s. is_listed (map (λ q. q.id) ss) s.id ≡ true) ss
All-mapped [] = tt
All-mapped (s ∷ ss) = (
  (let same = eq_refl s.id in ground arith),
  All-map (λ q. is_listed (map (λ x. x.id) ss) q.id ≡ true)
      (λ q. is_listed (map (λ x. x.id) (s ∷ ss)) q.id ≡ true) ss (λ q h. ground arith)
      (All-mapped ss),
)

module _ (year_month iso_week : ℕ → ℕ × ℕ) (months_before : ℕ → ℕ → ℕ) where
  -- The ids that classify_snapshots gives up.
  abbrev pub given_up : List Snapshot → ℕ → List String
  given_up ss now = map (λ s. s.id) (classify_snapshots year_month iso_week months_before ss now)

  is_protected-spared :
      (ss : List Snapshot) (now : ℕ) (j : String)
      → is_listed (protected year_month iso_week months_before ss now) j ≡ true
      → is_listed (given_up ss now) j ≡ false
  unfolding classify_snapshots
  is_protected-spared ss now j h =
      spared (protected year_month iso_week months_before ss now) j ss h

  abbrev months : List Snapshot → ℕ → List String
  months ss now = protect retention_monthly (monthly year_month iso_week months_before ss now)

  abbrev weeks : List Snapshot → ℕ → List String
  weeks ss now = protect retention_weekly (weekly year_month iso_week months_before ss now)

  abbrev recent : List Snapshot → ℕ → List String
  recent ss now = map (λ s. s.id) (select (is_recent year_month iso_week months_before now) ss)

  monthly_survives :
      (ss : List Snapshot) (now k : ℕ) (l : List Snapshot)
      → k < retention_monthly
      → select (in_month year_month iso_week months_before now k) ss ≡ l
      → Keeps IsOldest (given_up ss now) l
  unfolding protected
  monthly_survives ss now k [] b e = tt
  monthly_survives ss now k (s ∷ rest) b e =
      let (r, first, end) = first_sorted s rest in
      let found =
        protect_listed retention_monthly k (monthly year_month iso_week months_before ss now) r b
          (rw e first) in
      (
        r,
        end,
        is_protected-spared ss now r.id
            (is_listed-either (months ss now) (weeks ss now) (recent ss now) r.id (inl found)),
      )

  weekly_survives :
      (ss : List Snapshot) (now k : ℕ) (l : List Snapshot)
      → k < retention_weekly
      → select (in_week year_month iso_week months_before now k) ss ≡ l
      → Keeps IsNewest (given_up ss now) l
  unfolding protected
  weekly_survives ss now k [] b e = tt
  weekly_survives ss now k (s ∷ rest) b e =
      let (r, last, sorted, end) = last_sorted s rest in
      let found =
        protect_listed retention_weekly k (weekly year_month iso_week months_before ss now) r b
          (rw e last) in
      (
        r,
        end,
        is_protected-spared ss now r.id (
            is_listed-either (months ss now) (weeks ss now) (recent ss now) r.id (inr (inl found))),
      )

  recent_survives :
      (ss : List Snapshot) (now : ℕ)
      → All
          (λ s. is_listed (given_up ss now) s.id ≡ false)
          (select (is_recent year_month iso_week months_before now) ss)
  unfolding protected
  recent_survives ss now =
      let found = select (is_recent year_month iso_week months_before now) ss in
      All-map (λ s. is_listed (map (λ q. q.id) found) s.id ≡ true)
        (λ s. is_listed (given_up ss now) s.id ≡ false) found
        (λ s h.
          is_protected-spared ss now s.id
            (is_listed-either (months ss now) (weeks ss now) (recent ss now) s.id (inr (inr h))))
        (All-mapped found)

  -- For every list and time, what classify_snapshots gives up is COMPLETED, and it spares the
  -- snapshots of the last seven days, the oldest of each of the last twelve months that have one,
  -- and the newest of each of the last four weeks that have one.
  pub classify_snapshots_lem :
      (ss : List Snapshot) (now month week : ℕ)
      → month < retention_monthly
      → week < retention_weekly
      → Keeps IsOldest
          (given_up ss now)
          (select (in_month year_month iso_week months_before now month) ss)
        × Keeps IsNewest
            (given_up ss now)
            (select (in_week year_month iso_week months_before now week) ss)
        × All
            (λ s. is_listed (given_up ss now) s.id ≡ false)
            (select (is_recent year_month iso_week months_before now) ss)
        × All
            (λ s. is_completed s.estado ≡ true)
            (classify_snapshots year_month iso_week months_before ss now)
  unfolding classify_snapshots
  classify_snapshots_lem ss now month week m w = (
    monthly_survives ss now month _ m refl,
    weekly_survives ss now week _ w refl,
    recent_survives ss now,
    All-map _ (λ s. is_completed s.estado ≡ true)
        (classify_snapshots year_month iso_week months_before ss now) (λ s h. ground arith)
        (All-select _ ss),
  )
