-- ===== src/Outbox/Rows.antt =====
-- Lists of rows of the outbox of src/boveda/storage.py.
use boveda_pyme.Prelude.{
  if◌then◌else◌, ℕ, inl, inr, Bool, true, false, List, [], ◌∷◌, leb, Bool-cases, select, All,
  All-take,
}
use boveda_pyme.Catalog.{update_where}
use boveda_pyme.Outbox.{OutboxChunk, is_claimable, insert_by_created, order_by_created, claimed}

pub All-update_where {ℓ} :
    {A : Type ℓ} (p : A → Bool) (f : A → A) (P Q : A → Type 0) (xs : List A)
    → ((x : A) → P x → Q (if p x then f x else x))
    → All P xs
    → All Q (update_where p f xs)
All-update_where p f P Q [] h a = tt
All-update_where p f P Q (x ∷ xs) h a = (h x a.0, All-update_where p f P Q xs h a.1)

module _ (P : OutboxChunk → Type 0) where
  All-select :
      (p : OutboxChunk → Bool) (rows : List OutboxChunk) → All P rows → All P (select p rows)
  All-select p [] a = tt
  All-select p (r ∷ rows) a = choose (p r) (All-select p rows a.1)
    where
      choose :
          (b : Bool)
          → All P (select p rows)
          → All P (elim b as (λ _. List OutboxChunk) [
            | true ↦ r ∷ select p rows
            | false ↦ select p rows
          ])
      choose true rest = (a.0, rest)
      choose false rest = rest

  All-insert :
      (r : OutboxChunk) (rows : List OutboxChunk)
      → P r
      → All P rows
      → All P (insert_by_created r rows)
  unfolding insert_by_created
  All-insert r [] h a = (h, tt)
  All-insert r (q ∷ rows) h a = elim (Bool-cases (leb r.created_at q.created_at)) [
    | inl e ↦ rw e (h, a)
    | inr e ↦ rw e (a.0, All-insert r rows h a.1)
  ]

  pub All-order : (rows : List OutboxChunk) → All P rows → All P (order_by_created rows)
  unfolding order_by_created
  All-order [] a = tt
  All-order (r ∷ rows) a = All-insert r (order_by_created rows) a.0 (All-order rows a.1)

  pub All-claimed : (now n : ℕ) (rows : List OutboxChunk) → All P rows → All P (claimed now n rows)
  unfolding claimed
  All-claimed now n rows a = All-take P n _ (All-order _ (All-select (is_claimable now) rows a))
