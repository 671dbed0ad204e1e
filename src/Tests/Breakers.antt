-- ===== src/Tests/Breakers.antt =====
-- Witnesses for the circuit breaker and the router.
use boveda_pyme.Prelude.{ℕ, ◌≡◌, refl, ◌⊎◌, true, false, List, [], ◌∷◌, arith}
use boveda_pyme.Breaker.{closed, open_state, CircuitBreaker, new_breaker, default_config}
use boveda_pyme.Breaker.Steps.{IsConsistent, Event, enters, succeeds, fails, run, run-IsConsistent}
use boveda_pyme.Breaker.Calls.{value, exception, call, admits, canary_decides, Outcome}
use boveda_pyme.Breaker.Router.{StorageDestination, Attempt, Router, upload_chunk}
use boveda_pyme.Breaker.Failover.{behind, first_of_three, upload_chunk_lem, upload_chunk-keeps}

abbrev sample_events : List Event
sample_events = fails 1 ∷ enters 2 ∷ fails 3 ∷ fails 4 ∷ enters 70 ∷ succeeds ∷ []

run-IsConsistent_example : IsConsistent (run (new_breaker default_config) sample_events)
run-IsConsistent_example = run-IsConsistent default_config sample_events (omega arith) (omega arith)

abbrev failing : CircuitBreaker
failing = record {
  config = default_config;
  state = closed;
  failure_timestamps = 1 ∷ 40 ∷ [];
  opened_at = 0;
  consecutive_successes = 0;
  canary_in_flight = false;
}

abbrev opened : CircuitBreaker
opened = record failing { state = open_state; opened_at = 100 }

abbrev seven : Outcome ℕ
seven = value 7

canary_decides_example :
    let (b', result) = call 160 170 seven opened in
    (admits 160 opened ≡ true)
    × (result ≡ seven)
    × (b'.canary_in_flight ≡ false)
    × (((a : ℕ) × (seven ≡ value a) × (b'.state ≡ closed) × (b'.failure_timestamps ≡ []))
        ⊎ ((b'.state ≡ open_state) × (b'.opened_at ≡ 170)))
canary_decides_example = canary_decides 160 170 seven opened refl (omega arith) refl

abbrev sample_attempt : Attempt ℕ
sample_attempt = record {
  primary_start = 110;
  primary_end = 111;
  secondary_start = 112;
  secondary_end = 113;
  primary_outcome = value 1;
  secondary_outcome = exception;
  outbox_outcome = value 3;
}

abbrev sample_router : Router
sample_router = record { primary_breaker = opened; secondary_breaker = failing }

upload_chunk_lem_example :
    (upload_chunk sample_attempt sample_router).1
    ≡ first_of_three (behind 110 opened (value 1)) (behind 112 failing exception) (value 3)
upload_chunk_lem_example = upload_chunk_lem sample_attempt sample_router

upload_chunk-keeps_example :
    (d : StorageDestination) × (x : ℕ) × ((upload_chunk sample_attempt sample_router).1
      ≡ value (d, x))
upload_chunk-keeps_example =
    upload_chunk-keeps sample_attempt sample_router 3 (λ e. cc) (λ e. cc) refl
