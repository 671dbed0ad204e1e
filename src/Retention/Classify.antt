-- ===== src/Retention/Classify.antt =====
-- classify_snapshots of src/boveda/retention.py. Timestamps count seconds, so that the durations of
-- timedelta are numbers; the calendar (year and month, ISO year and week, and the months that
-- relativedelta takes off) is a parameter.
pub mod Ends
pub mod Kept
use boveda_pyme.Prelude.{
  ℕ, suc, zero, ◌-◌, ◌*◌, String, Bool, not, ◌&&◌, Option, none, some, List, [], ◌∷◌, ◌++◌, map,
  leb, ◌==◌, if◌then◌else◌, select,
}
use boveda_pyme.Catalog.{Snapshot, is_completed}
use boveda_pyme.Retention.Expiry.{is_listed}

abbrev pub day : ℕ
day = 86400

abbrev pub week : ℕ
week = 7 * day

abbrev pub retention_daily : ℕ
retention_daily = 7

abbrev pub retention_weekly : ℕ
retention_weekly = 4

abbrev pub retention_monthly : ℕ
retention_monthly = 12

-- `sort(key=lambda s: s.timestamp)`, which is stable.
unfoldable pub insert_ascending : Snapshot → List Snapshot → List Snapshot
insert_ascending s [] = s ∷ []
insert_ascending s (q ∷ ss) =
    let rest = insert_ascending s ss in if leb s.timestamp q.timestamp then s ∷ q ∷ ss else q ∷ rest

unfoldable pub sort_by_timestamp : List Snapshot → List Snapshot
unfolding insert_ascending
sort_by_timestamp [] = []
sort_by_timestamp (s ∷ ss) = insert_ascending s (sort_by_timestamp ss)

abbrev pub first_of : List Snapshot → Option Snapshot
first_of [] = none
first_of (s ∷ ss) = some s

abbrev pub last_of : List Snapshot → Option Snapshot
last_of [] = none
last_of (s ∷ []) = some s
last_of (s ∷ q ∷ ss) = last_of (q ∷ ss)

abbrev pub id_of : Option Snapshot → List String
id_of none = []
id_of (some s) = s.id ∷ []

abbrev pub same_pair : ℕ × ℕ → ℕ × ℕ → Bool
same_pair (a, b) (c, d) = (a == c) && (b == d)

-- `for offset in range(n)`
unfoldable pub protect : ℕ → (ℕ → Option Snapshot) → List String
protect zero pick = []
protect (suc n) pick = protect n pick ++ id_of (pick n)

module _ (year_month iso_week : ℕ → ℕ × ℕ) (months_before : ℕ → ℕ → ℕ) where
  abbrev pub in_month : ℕ → ℕ → Snapshot → Bool
  in_month now k s = same_pair (year_month s.timestamp) (year_month (months_before now k))

  abbrev pub in_week : ℕ → ℕ → Snapshot → Bool
  in_week now k s = same_pair (iso_week s.timestamp) (iso_week (now - k * week))

  abbrev pub is_recent : ℕ → Snapshot → Bool
  is_recent now s = leb (now - retention_daily * day) s.timestamp

  abbrev pub monthly : List Snapshot → ℕ → ℕ → Option Snapshot
  monthly ss now k = first_of (sort_by_timestamp (select (in_month now k) ss))

  abbrev pub weekly : List Snapshot → ℕ → ℕ → Option Snapshot
  weekly ss now k = last_of (sort_by_timestamp (select (in_week now k) ss))

  unfoldable pub protected : List Snapshot → ℕ → List String
  unfolding sort_by_timestamp protect
  protected ss now =
      protect retention_monthly (monthly ss now)
      ++ protect retention_weekly (weekly ss now)
      ++ map (λ s. s.id) (select (is_recent now) ss)

  unfoldable pub classify_snapshots : List Snapshot → ℕ → List Snapshot
  unfolding protected
  classify_snapshots ss now =
      select (λ s. not (is_listed (protected ss now) s.id) && is_completed s.estado) ss
