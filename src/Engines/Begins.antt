-- ===== src/Engines/Begins.antt =====
-- Every engine of src/boveda/database.py begins its transactions itself.
use boveda_pyme.Prelude.{
  ap, Bool-cases, inl, inr, subst, String, ◌≡◌, refl, true, Option, none, some, List, [], ◌∷◌,
  first_such, All,
}
use boveda_pyme.Engines.{Engine, EngineCache, is_at, or_create, get_engine}

abbrev pub AllBegin : EngineCache → Type 0
AllBegin cache = All (λ e. e.begins ≡ true) cache.engines

found-begins :
    (p : String) (es : List Engine) (e : Engine)
    → All (λ q. q.begins ≡ true) es
    → first_such (is_at p) es ≡ some e
    → e.begins ≡ true
found-begins p [] e a h = absurd (cc)
found-begins p (q ∷ es) e a h = elim (Bool-cases (is_at p q)) [
  | inl here ↦
      let found : some q ≡ some e = rw (here, first_such) at h in
      subst (λ (x : Engine). x.begins ≡ true)
        (ap (λ o. elim o as (λ _. Engine) [ none ↦ q | some x ↦ x ]) found) a.0
  | inr later ↦
      let found : first_such (is_at p) es ≡ some e = rw (later, first_such) at h in
      found-begins p es e a.1 found
]

or_create-begins :
    (p : String) (cache : EngineCache) (o : Option Engine)
    → first_such (is_at p) cache.engines ≡ o
    → AllBegin cache
    → let (e, cache') = or_create p cache o in (e.begins ≡ true) × AllBegin cache'
or_create-begins p cache none h a = (refl, (refl, a))
or_create-begins p cache (some e) h a = (found-begins p cache.engines e a h, a)

-- The engine that get_engine gives, and those that it keeps, begin their transactions themselves.
pub get_engine-begins :
    (abspath : String → String) (db_path : String) (cache : EngineCache)
    → AllBegin cache
    → let (e, cache') = get_engine abspath db_path cache in (e.begins ≡ true) × AllBegin cache'
unfolding get_engine
get_engine-begins abspath db_path cache = or_create-begins (abspath db_path) cache _ refl
