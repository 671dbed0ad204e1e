-- ===== src/Breaker/Calls.antt =====
-- Whole calls of src/boveda/circuit_breaker.py with no other call in between, and what a call that
-- overlaps others does.
use boveda_pyme.Prelude.{ℕ, ◌+◌, ◌≤◌, ◌≡◌, ◌⊎◌, inl, inr, Bool, true, false, [], ◌∷◌, arith}
use boveda_pyme.Breaker.{
  closed, open_state, CircuitBreaker, Entry, refused, runs, enter, record_success, record_failure,
  cancel,
}
use boveda_pyme.Breaker.Steps.{step, run, enters, succeeds, fails}

-- How the function that `call` runs ends: a value, an Exception, or asyncio's cancellation, which is
-- none.
pub data Outcome (A : Type 0) : Type 0 where
  value : A → Outcome A
  exception : Outcome A
  cancellation : Outcome A

-- What `call` gives back: the value, an Exception (CircuitBreakerOpenError too), or the cancellation.
unfoldable pub finish :
    {A : Type 0} → ℕ → Bool → Outcome A → CircuitBreaker → CircuitBreaker × Outcome A
finish now claimed (value a) b = (record_success b, value a)
finish now claimed exception b = (record_failure now b, exception)
finish now claimed cancellation b = (cancel now claimed b, cancellation)

unfoldable pub proceed :
    {A : Type 0} → ℕ → Outcome A → CircuitBreaker × Entry → CircuitBreaker × Outcome A
unfolding finish
proceed now o (b, refused) = (b, exception)
proceed now o (b, runs claimed) = finish now claimed o b

-- `call`: it enters at one time and ends at another.
unfoldable pub call : {A : Type 0} → ℕ → ℕ → Outcome A → CircuitBreaker → CircuitBreaker × Outcome A
unfolding enter proceed
call start end o b = proceed end o (enter start b)

-- Whether a call that starts at a time runs the function.
abbrev pub admits : ℕ → CircuitBreaker → Bool
admits start b = elim ((enter start b).1) [ refused ↦ false | runs _ ↦ true ]

-- Recovery, with a half_open_success_threshold of one: an open breaker whose cooldown is over admits
-- the next call; one that succeeds closes it with no failure left, one that fails or is cancelled
-- opens it for another cooldown, and no canary is left in flight.
pub canary_decides :
    {A : Type 0} (start end : ℕ) (o : Outcome A) (b : CircuitBreaker)
    → b.state ≡ open_state
    → b.opened_at + b.config.cooldown_seconds ≤ start
    → b.config.half_open_success_threshold ≡ 1
    → let (b', result) = call start end o b in
      (admits start b ≡ true)
      × (result ≡ o)
      × (b'.canary_in_flight ≡ false)
      × (((a : A) × (o ≡ value a) × (b'.state ≡ closed) × (b'.failure_timestamps ≡ []))
          ⊎ ((b'.state ≡ open_state) × (b'.opened_at ≡ end)))
unfolding call enter record_success record_failure cancel
canary_decides start end (value a) b o c s =
    (ground arith, ground arith, ground arith, inl (a, ground arith, ground arith, ground arith))
canary_decides start end exception b o c s =
    (ground arith, ground arith, ground arith, inr (ground arith, ground arith))
canary_decides start end cancellation b o c s =
    (ground arith, ground arith, ground arith, inr (ground arith, ground arith))

-- A call that entered while the breaker was closed and returns while a canary is in flight is
-- counted as the canary: with a threshold of one the breaker closes and forgets its failures, though
-- the canary has not ended.
pub stale_success_closes :
    (start : ℕ) (b : CircuitBreaker)
    → b.state ≡ open_state
    → b.opened_at + b.config.cooldown_seconds ≤ start
    → b.config.half_open_success_threshold ≡ 1
    → let b' = run b (enters start ∷ succeeds ∷ []) in
      ((enter start b).1 ≡ runs true)
      × (b'.state ≡ closed)
      × (b'.canary_in_flight ≡ false)
      × ((enter start b').1 ≡ runs false)
unfolding run step enter record_success
stale_success_closes start b o c s = (ground arith, ground arith, ground arith, ground arith)

-- If it raises instead, the breaker opens, and after one more cooldown a second canary is admitted
-- beside the first.
pub stale_failure_frees_canary :
    (start late again : ℕ) (b : CircuitBreaker)
    → b.state ≡ open_state
    → b.opened_at + b.config.cooldown_seconds ≤ start
    → late + b.config.cooldown_seconds ≤ again
    → ((enter start b).1 ≡ runs true)
      × ((enter again (run b (enters start ∷ fails late ∷ []))).1 ≡ runs true)
unfolding run step enter record_failure
stale_failure_frees_canary start late again b o c s = (ground arith, ground arith)
