-- ===== src/Breaker.antt =====
-- The circuit breaker of src/boveda/circuit_breaker.py. Times are whole ticks of the monotonic clock;
-- a difference of times is compared by moving it to the other side. A step is what the class does
-- under its lock; between two steps of a call other calls may step.
pub mod Steps
pub mod Failover
pub mod Calls
pub mod Router
use boveda_pyme.Prelude.{
  ℕ, zero, suc, ◌+◌, ◌-◌, ◌*◌, ◌/◌, ◌%◌, ◌^◌, ◌≤◌, ◌<◌, min, max, String, ◌≡◌, refl, sym, ap, ◌∙◌,
  subst, ◌≢◌, ◌↔◌, ◌⊎◌, inl, inr, Bool, true, false, not, ◌&&◌, ◌||◌, Option, none, some, List, [],
  ◌∷◌, ◌++◌, map, append_assoc, append-nil, arith, str_eq, eq_iff, ltb, leb, ◌==◌, if◌then◌else◌,
  ltb→lt, lt→ltb, ==_iff, Bool-cases, Option-cases, length, take, drop, length-append,
  take-append-drop, length-take, length-drop, select, some_of, first_such, All, All-map, All-append,
  All-map_of, All-zip, All-intro, All-take, ◌>>=◌, ◌>>◌, raise_if, Result-cases, raise_if-eq-ok,
  ok-injective, >>=-eq-ok, Result, ok, err,
}

pub data CircuitState : Type 0 where
  closed open_state half_open : CircuitState

pub record CircuitBreakerConfig : Type 0 where
  pub failure_threshold : ℕ
  pub failure_window_seconds : ℕ
  pub cooldown_seconds : ℕ
  pub half_open_success_threshold : ℕ

pub record CircuitBreaker : Type 0 where
  pub config : CircuitBreakerConfig
  pub state : CircuitState
  pub failure_timestamps : List ℕ
  pub opened_at : ℕ
  pub consecutive_successes : ℕ
  pub canary_in_flight : Bool

-- The defaults of `CircuitBreakerConfig`, in seconds.
abbrev pub default_config : CircuitBreakerConfig
default_config = record {
  failure_threshold = 3;
  failure_window_seconds = 30;
  cooldown_seconds = 60;
  half_open_success_threshold = 1;
}

-- `__init__`
unfoldable pub new_breaker : CircuitBreakerConfig → CircuitBreaker
new_breaker config = record {
  config = config;
  state = closed;
  failure_timestamps = [];
  opened_at = 0;
  consecutive_successes = 0;
  canary_in_flight = false;
}

-- What `call` does before it runs the function: it is refused, or it runs, and may have claimed the
-- canary.
pub data Entry : Type 0 where
  refused : Entry
  runs : Bool → Entry

-- In HALF_OPEN one canary at a time.
unfoldable pub claim_canary : CircuitBreaker → CircuitBreaker × Entry
claim_canary b =
    if b.canary_in_flight then (b, refused) else (record b { canary_in_flight = true }, runs true)

-- From OPEN to HALF_OPEN once the cooldown is over.
unfoldable pub to_half_open : CircuitBreaker → CircuitBreaker
to_half_open b = record b { state = half_open; consecutive_successes = 0; canary_in_flight = false }

unfoldable pub enter_by : CircuitState → ℕ → CircuitBreaker → CircuitBreaker × Entry
unfolding claim_canary to_half_open
enter_by open_state now b =
    if leb (b.opened_at + b.config.cooldown_seconds) now
    then claim_canary (to_half_open b)
    else (b, refused)
enter_by half_open now b = claim_canary b
enter_by closed now b = (b, runs false)

-- The first block of `call`, under the lock.
unfoldable pub enter : ℕ → CircuitBreaker → CircuitBreaker × Entry
unfolding enter_by
enter now b = enter_by b.state now b

unfoldable pub success_by : CircuitState → CircuitBreaker → CircuitBreaker
success_by half_open b =
    let b' = record b {
      canary_in_flight = false;
      consecutive_successes = b.consecutive_successes + 1;
    } in
    if leb b.config.half_open_success_threshold (b.consecutive_successes + 1)
    then record b' { state = closed; failure_timestamps = []; consecutive_successes = 0 }
    else b'
success_by closed b = record b { failure_timestamps = [] }
success_by open_state b = b

unfoldable pub record_success : CircuitBreaker → CircuitBreaker
unfolding success_by
record_success b = success_by b.state b

-- The loop that drops the timestamps before the window, from the front.
unfoldable pub purge_window : ℕ → ℕ → List ℕ → List ℕ
purge_window now window [] = []
purge_window now window (t ∷ ts) =
    let rest = purge_window now window ts in if ltb (t + window) now then rest else t ∷ ts

unfoldable pub failure_by : CircuitState → ℕ → CircuitBreaker → CircuitBreaker
failure_by half_open now b = record b {
  canary_in_flight = false;
  state = open_state;
  opened_at = now;
  consecutive_successes = 0;
}
failure_by closed now b =
    let ts = purge_window now b.config.failure_window_seconds b.failure_timestamps ++ now ∷ [] in
    let b' = record b { failure_timestamps = ts } in
    if leb b.config.failure_threshold (length ts)
    then record b' { state = open_state; opened_at = now }
    else b'
failure_by open_state now b = b

unfoldable pub record_failure : ℕ → CircuitBreaker → CircuitBreaker
unfolding failure_by
record_failure now b = failure_by b.state now b

-- The `finally` of a call that was cancelled with the canary claimed.
unfoldable pub cancel_by : CircuitState → ℕ → CircuitBreaker → CircuitBreaker
cancel_by half_open now b =
    if b.canary_in_flight
    then record b { canary_in_flight = false; state = open_state; opened_at = now }
    else b
cancel_by closed now b = b
cancel_by open_state now b = b

unfoldable pub cancel : ℕ → Bool → CircuitBreaker → CircuitBreaker
unfolding cancel_by
cancel now claimed b = if claimed then cancel_by b.state now b else b
