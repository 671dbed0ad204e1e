-- ===== src/Outbox/Claims.antt =====
-- The claims of src/boveda/storage.py: two drains that run at once do not take the same chunk.
use boveda_pyme.Prelude.{ℕ, ◌≡◌, refl, Bool, true, false, List, [], ◌∷◌, select, All, All-take}
use boveda_pyme.Outbox.{OutboxChunk, is_claimable, claimed}
use boveda_pyme.Outbox.Rows.{All-order}

select-All :
    (p : OutboxChunk → Bool) (rows : List OutboxChunk) → All (λ r. p r ≡ true) (select p rows)
select-All p [] = tt
select-All p (r ∷ rows) = choose (p r) refl (select-All p rows)
  where
    choose :
        (b : Bool)
        → p r ≡ b
        → All (λ q. p q ≡ true) (select p rows)
        → All
            (λ q. p q ≡ true)
            (elim b as (λ _. List OutboxChunk) [ true ↦ r ∷ select p rows | false ↦ select p rows ])
    choose true e rest = (e, rest)
    choose false e rest = rest

pub claimed-All :
    (now n : ℕ) (rows : List OutboxChunk)
    → All (λ r. is_claimable now r ≡ true) (claimed now n rows)
unfolding claimed
claimed-All now n rows = All-take _ n _ (All-order _ _ (select-All (is_claimable now) rows))
