-- ===== src/Breaker/Failover.antt =====
-- Which destination the router of src/boveda/circuit_breaker.py takes, and that a chunk is not lost.
use mathlib.Core.Path.{ap₂}
use boveda_pyme.Prelude.{ℕ, ◌≡◌, refl, ◌∙◌, ◌≢◌, true, false, arith, if◌then◌else◌}
use boveda_pyme.Breaker.{CircuitBreaker, enter, Entry, refused, runs}
use boveda_pyme.Breaker.Calls.{Outcome, value, exception, cancellation, call, proceed, admits}
use boveda_pyme.Breaker.Router.{
  StorageDestination, primary, secondary, outbox, Attempt, Router, tag, or_else, upload_chunk,
}

-- How a destination behind a breaker ends: its uploader decides if the breaker admits the call.
abbrev pub behind : {A : Type 0} → ℕ → CircuitBreaker → Outcome A → Outcome A
behind start b o = if admits start b then o else exception

-- The first of the three that does not raise.
abbrev pub first_of_three :
    {A : Type 0} → Outcome A → Outcome A → Outcome A → Outcome (StorageDestination × A)
first_of_three (value a) s o = value (primary, a)
first_of_three cancellation s o = cancellation
first_of_three exception (value a) o = value (secondary, a)
first_of_three exception cancellation o = cancellation
first_of_three exception exception o = tag outbox o

proceed-behind :
    {A : Type 0} (end : ℕ) (o : Outcome A) (e : CircuitBreaker × Entry)
    → (proceed end o e).1
      ≡ (if (elim (e.1) [ refused ↦ false | runs _ ↦ true ]) then o else exception)
unfolding proceed
proceed-behind end o (b, refused) = refl
proceed-behind end (value a) (b, runs c) = refl
proceed-behind end exception (b, runs c) = refl
proceed-behind end cancellation (b, runs c) = refl

pub call-behind :
    {A : Type 0} (start end : ℕ) (o : Outcome A) (b : CircuitBreaker)
    → (call start end o b).1 ≡ behind start b o
unfolding call
call-behind start end o b = proceed-behind end o (enter start b)

three_ends :
    {A : Type 0} (p s o : Outcome A) (r u : Router)
    → (or_else primary p
        (r, cancellation)
        (or_else secondary s (u, cancellation) (u, tag outbox o))).1
      ≡ first_of_three p s o
three_ends (value a) s o r u = refl
three_ends cancellation s o r u = refl
three_ends exception (value a) o r u = refl
three_ends exception cancellation o r u = refl
three_ends exception exception o r u = refl

-- An upload ends as the first of primary, secondary and outbox that does not raise, where a breaker
-- that refuses counts as raising.
pub upload_chunk_lem :
    {A : Type 0} (t : Attempt A) (r : Router)
    → (upload_chunk t r).1
      ≡ first_of_three
          (behind t.primary_start r.primary_breaker t.primary_outcome)
          (behind t.secondary_start r.secondary_breaker t.secondary_outcome)
          t.outbox_outcome
unfolding upload_chunk
upload_chunk_lem t r =
    let p = call-behind t.primary_start t.primary_end t.primary_outcome r.primary_breaker in
    let s = call-behind t.secondary_start t.secondary_end t.secondary_outcome r.secondary_breaker in
    three_ends (call t.primary_start t.primary_end t.primary_outcome r.primary_breaker).1
      (call t.secondary_start t.secondary_end t.secondary_outcome r.secondary_breaker).1
      t.outbox_outcome _ _
    ∙ ap₂ (λ a b. first_of_three a b t.outbox_outcome) p s

-- If the outbox takes the chunk and no uploader is cancelled, the upload ends with a destination,
-- whatever the breakers and the clouds do.
pub upload_chunk-keeps :
    {A : Type 0} (t : Attempt A) (r : Router) (a : A)
    → t.primary_outcome ≢ cancellation
    → t.secondary_outcome ≢ cancellation
    → t.outbox_outcome ≡ value a
    → (d : StorageDestination) × (x : A) × ((upload_chunk t r).1 ≡ value (d, x))
upload_chunk-keeps t r a p s o = rw (upload_chunk_lem t r) (
    taken (behind t.primary_start r.primary_breaker t.primary_outcome)
      (behind t.secondary_start r.secondary_breaker t.secondary_outcome) t.outbox_outcome
      (λ e. ground (arith, p)) (λ e. ground (arith, s)) o)
  where
    taken :
        {B : Type 0} {a : B} (p s o : Outcome B)
        → p ≢ cancellation
        → s ≢ cancellation
        → o ≡ value a
        → (d : StorageDestination) × (x : B) × (first_of_three p s o ≡ value (d, x))
    taken (value x) s o np ns e = (primary, x, refl)
    taken cancellation s o np ns e = absurd (np refl)
    taken exception (value x) o np ns e = (secondary, x, refl)
    taken exception cancellation o np ns e = absurd (ns refl)
    taken {a = x} exception exception o np ns e = (outbox, x, rw e refl)
