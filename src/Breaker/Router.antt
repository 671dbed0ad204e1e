-- ===== src/Breaker/Router.antt =====
-- MultiCloudStorageRouter of src/boveda/circuit_breaker.py, over two breakers.
use boveda_pyme.Prelude.{ℕ}
use boveda_pyme.Breaker.{CircuitBreaker}
use boveda_pyme.Breaker.Calls.{Outcome, value, exception, cancellation, call}

pub data StorageDestination : Type 0 where
  primary secondary outbox : StorageDestination

-- When each call enters and ends, and how each uploader would end if it ran.
pub record Attempt (A : Type 0) : Type 0 where
  pub primary_start : ℕ
  pub primary_end : ℕ
  pub secondary_start : ℕ
  pub secondary_end : ℕ
  pub primary_outcome : Outcome A
  pub secondary_outcome : Outcome A
  pub outbox_outcome : Outcome A

pub record Router : Type 0 where
  pub primary_breaker : CircuitBreaker
  pub secondary_breaker : CircuitBreaker

abbrev pub tag : {A : Type 0} → StorageDestination → Outcome A → Outcome (StorageDestination × A)
tag d (value a) = value (d, a)
tag d exception = exception
tag d cancellation = cancellation

-- `except Exception: pass` goes on to the next destination; a cancellation is no Exception.
abbrev pub or_else :
    {A : Type 0}
    → StorageDestination
    → Outcome A
    → Router × Outcome (StorageDestination × A)
    → Router × Outcome (StorageDestination × A)
    → Router × Outcome (StorageDestination × A)
or_else d (value a) (r, _) rest = (r, value (d, a))
or_else d exception _ rest = rest
or_else d cancellation (r, _) rest = (r, cancellation)

-- The secondary, then the outbox.
unfoldable pub upload_degraded :
    {A : Type 0} → Attempt A → Router → Router × Outcome (StorageDestination × A)
upload_degraded t r =
    let (b, o) = call t.secondary_start t.secondary_end t.secondary_outcome r.secondary_breaker in
    let r' : Router = record r { secondary_breaker = b } in
    or_else secondary o (r', cancellation) (r', tag outbox t.outbox_outcome)

unfoldable pub upload_chunk :
    {A : Type 0} → Attempt A → Router → Router × Outcome (StorageDestination × A)
unfolding upload_degraded
upload_chunk t r =
    let (b, o) = call t.primary_start t.primary_end t.primary_outcome r.primary_breaker in
    let r' : Router = record r { primary_breaker = b } in
    or_else primary o (r', cancellation) (upload_degraded t r')
