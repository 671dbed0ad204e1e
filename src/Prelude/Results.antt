-- ===== src/Prelude/Results.antt =====
-- Python's exceptions as values.
use mathlib.Core.Path.{◌≡◌, refl}
use mathlib.Core.Logic.{◌⊎◌, inl, inr}
use mathlib.Core.Bool.{Bool, true, false}

pub data Result (E A : Type 0) : Type 0 where
  ok : A → Result E A
  err : E → Result E A

infixl 5 ◌>>=◌ ◌>>◌
abbrev pub ◌>>=◌ : {E A B : Type 0} → Result E A → (A → Result E B) → Result E B
ok a >>= f = f a
err e >>= f = err e

abbrev pub ◌>>◌ : {E A : Type 0} → Result E (Unit {0}) → Result E A → Result E A
m >> k = m >>= λ _. k

-- `if c: raise e`
abbrev pub raise_if : {E : Type 0} → Bool → E → Result E (Unit {0})
raise_if true e = err e
raise_if false e = ok tt

pub Result-cases :
    {E A : Type 0} (r : Result E A) → ((a : A) × (r ≡ ok a)) ⊎ ((e : E) × (r ≡ err e))
Result-cases (ok a) = inl (a, refl)
Result-cases (err e) = inr (e, refl)

-- Inversion: a guarded block that succeeds has passed its guard.
pub raise_if-eq-ok :
    {E A : Type 0} (b : Bool) (x : E) (m : Result E A) {a : A}
    → (raise_if b x >> m) ≡ ok a
    → (b ≡ false) × (m ≡ ok a)
raise_if-eq-ok true x m h = cc
raise_if-eq-ok false x m h = (refl, h)

pub ok-injective : {E A : Type 0} {a b : A} → ◌≡◌ {A = Result E A} (ok a) (ok b) → a ≡ b
ok-injective h = cc

-- Inversion of a bind that succeeds.
pub >>=-eq-ok :
    {E A B : Type 0} (first : Result E A) (then_do : A → Result E B) {out : B}
    → (first >>= then_do) ≡ ok out
    → (x : A) × (first ≡ ok x) × (then_do x ≡ ok out)
>>=-eq-ok (err e) then_do raised = cc
>>=-eq-ok (ok x) then_do done = (x, refl, done)
