-- ===== src/Breaker/Steps.antt =====
-- What each step of src/boveda/circuit_breaker.py keeps, over every interleaving of calls.
use boveda_pyme.Prelude.{
  ℕ, ◌+◌, ◌≤◌, ◌<◌, ◌≡◌, refl, ◌↔◌, Bool, true, List, [], ◌∷◌, ◌++◌, arith, leb, length,
  length-append, select, All,
}
use boveda_pyme.Breaker.{
  closed, open_state, half_open, CircuitBreakerConfig, CircuitBreaker, new_breaker, enter,
  record_success, record_failure, cancel, purge_window,
}

-- What holds of a breaker between two steps.
pub record IsConsistent (b : CircuitBreaker) : Type 0 where
  pub canary_half_open : b.canary_in_flight ≡ true → b.state ≡ half_open
  pub below_threshold : b.state ≡ closed → length b.failure_timestamps < b.config.failure_threshold
  pub successes_below :
      b.state ≡ half_open → b.consecutive_successes < b.config.half_open_success_threshold
  pub threshold_positive : 0 < b.config.failure_threshold
  pub successes_positive : 0 < b.config.half_open_success_threshold

-- A step of some call: it enters, its function returns or raises, or it is cancelled.
pub data Event : Type 0 where
  enters : ℕ → Event
  succeeds : Event
  fails : ℕ → Event
  is_cancelled : ℕ → Bool → Event

unfoldable pub step : CircuitBreaker → Event → CircuitBreaker
unfolding enter record_success record_failure cancel
step b (enters now) = (enter now b).0
step b succeeds = record_success b
step b (fails now) = record_failure now b
step b (is_cancelled now claimed) = cancel now claimed b

unfoldable pub run : CircuitBreaker → List Event → CircuitBreaker
run b [] = b
run b (e ∷ es) = run (step b e) es

step-IsConsistent : (b : CircuitBreaker) (e : Event) → IsConsistent b → IsConsistent (step b e)
unfolding step
step-IsConsistent b (enters now) c = ground arith
step-IsConsistent b succeeds c = ground arith
step-IsConsistent b (fails now) c = ground arith
step-IsConsistent b (is_cancelled now claimed) c = ground arith

config-step : (b : CircuitBreaker) (e : Event) → (step b e).config ≡ b.config
unfolding step
config-step b (enters now) = ground arith
config-step b succeeds = ground arith
config-step b (fails now) = ground arith
config-step b (is_cancelled now claimed) = ground arith

run_from-IsConsistent :
    (b : CircuitBreaker) (es : List Event) → IsConsistent b → IsConsistent (run b es)
unfolding run
run_from-IsConsistent b [] c = c
run_from-IsConsistent b (e ∷ es) c = run_from-IsConsistent (step b e) es (step-IsConsistent b e c)

-- From a new breaker with positive thresholds, whatever the calls do and in whatever order: a canary
-- is in flight only in HALF_OPEN, a closed breaker has fewer failures in its window than the
-- threshold, and a half-open one fewer successes.
pub run-IsConsistent :
    (config : CircuitBreakerConfig) (es : List Event)
    → 0 < config.failure_threshold
    → 0 < config.half_open_success_threshold
    → IsConsistent (run (new_breaker config) es)
unfolding new_breaker
run-IsConsistent config es p q = run_from-IsConsistent (new_breaker config) es (ground arith)

-- Timestamps in the order in which they were appended, none after `now`.
abbrev pub Ordered : ℕ → List ℕ → Type 0
Ordered now [] = Unit
Ordered now (t ∷ ts) = (t ≤ now) × All (λ u. t ≤ u) ts × Ordered now ts

abbrev pub in_window : ℕ → ℕ → ℕ → Bool
in_window now window t = leb now (t + window)

select_every :
    (now window t : ℕ) (ts : List ℕ)
    → now ≤ t + window
    → All (λ u. t ≤ u) ts
    → select (in_window now window) ts ≡ ts
select_every now window t [] h a = refl
select_every now window t (u ∷ ts) h a = ground (arith, a.0, select_every now window t ts h a.1)

-- Dropping from the front leaves exactly the timestamps in the window.
pub purge_window_lem :
    (now window : ℕ) (ts : List ℕ)
    → Ordered now ts
    → purge_window now window ts ≡ select (in_window now window) ts
unfolding purge_window
purge_window_lem now window [] o = refl
purge_window_lem now window (t ∷ ts) o = ground (
  arith,
  purge_window_lem now window ts o.2,
  λ (h : now ≤ t + window). select_every now window t ts h o.1,
)

-- A failure of a closed breaker with ordered timestamps keeps exactly those in the window and
-- itself, and opens the breaker exactly if they reach the threshold.
pub record_failure_lem :
    (now : ℕ) (b : CircuitBreaker)
    → b.state ≡ closed
    → Ordered now b.failure_timestamps
    → let b' = record_failure now b in
      let ts = select (in_window now b.config.failure_window_seconds) b.failure_timestamps in
      (b'.failure_timestamps ≡ ts ++ now ∷ [])
      × ((b'.state ≡ open_state) ↔ (b.config.failure_threshold ≤ length ts + 1))
unfolding record_failure
record_failure_lem now b is_closed o =
    let window = b.config.failure_window_seconds in
    let e = purge_window_lem now window b.failure_timestamps o in
    let l = length-append (purge_window now window b.failure_timestamps) (now ∷ []) in
    (ground (arith, e), (λ h. ground (arith, e, l), λ h. ground (arith, e, l)))

-- A call that enters before a time; all else may happen at any time.
abbrev pub IsEarly : ℕ → Event → Type 0
IsEarly limit (enters now) = now < limit
IsEarly limit succeeds = Unit
IsEarly limit (fails now) = Unit
IsEarly limit (is_cancelled now claimed) = Unit

open_step :
    (b : CircuitBreaker) (e : Event)
    → b.state ≡ open_state
    → IsEarly (b.opened_at + b.config.cooldown_seconds) e
    → step b e ≡ b
unfolding step
open_step b (enters now) o h = ground arith
open_step b succeeds o h = ground arith
open_step b (fails now) o h = ground arith
open_step b (is_cancelled now claimed) o h = ground arith

-- While the cooldown lasts, nothing that any call does changes an open breaker, whether it enters,
-- returns, raises or is cancelled.
pub run_open :
    (b : CircuitBreaker) (es : List Event)
    → b.state ≡ open_state
    → All (IsEarly (b.opened_at + b.config.cooldown_seconds)) es
    → run b es ≡ b
unfolding run
run_open b [] o h = refl
run_open b (e ∷ es) o h = rw (open_step b e o h.0) (run_open b es o h.1)
