-- ===== src/Engines/Shared.antt =====
-- Which calls share an engine of src/boveda/database.py.
use text.Mathlib.TextPositions.{eq_refl}
use boveda_pyme.Prelude.{
  ℕ, ◌<◌, String, ◌≡◌, ◌≢◌, refl, sym, ap, ◌∙◌, subst, true, Option, none, some, List, [], ◌∷◌,
  arith, eq_iff, first_such, str_eq, Bool-cases, inl, inr, ok,
}
use boveda_pyme.Tenants.{db_path, is_tenant_id}
use boveda_pyme.Tenants.Paths.{get_tenant_db_path-is_tenant_id, db_path_ne}
use boveda_pyme.Engines.{
  Engine, EngineCache, is_at, or_create, get_engine, get_tenant_session_factory,
}

-- The engines are numbered downwards from the last one.
abbrev pub Ordered : ℕ → List Engine → Type 0
Ordered n [] = Unit
Ordered n (e ∷ es) = (e.number < n) × Ordered e.number es

-- The engine of a path is in the cache.
abbrev Holds : String → Engine → EngineCache → Type 0
Holds p e cache = first_such (is_at p) cache.engines ≡ some e

record IsShared (p : String) (cache : EngineCache) (done : Engine × EngineCache) : Type 0 where
  ordered : Ordered done.1.created done.1.engines
  held : Holds p done.0 done.1
  others : (q : String) (e : Engine) → Holds q e cache → Holds q e done.1

or_create-IsShared :
    (p : String) (cache : EngineCache) (o : Option Engine)
    → first_such (is_at p) cache.engines ≡ o
    → Ordered cache.created cache.engines
    → IsShared p cache (or_create p cache o)
or_create-IsShared p cache (some e) found ord = record {
  ordered = ord;
  held = found;
  others = λ q f h. h;
}
or_create-IsShared p cache none missing ord = record {
  ordered = (omega arith, ord);
  held = let same = eq_refl p in ground arith;
  others = λ q f h. elim (Bool-cases (str_eq p q)) [
    | inl is ↦
        let same = (eq_iff p q).0 is in
        absurd (let h' = subst (λ x. Holds x f cache) (sym same) h in cc)
    | inr not_is ↦ ground arith
  ];
}

get_engine-IsShared :
    (abspath : String → String) (path : String) (cache : EngineCache)
    → Ordered cache.created cache.engines
    → IsShared (abspath path) cache (get_engine abspath path cache)
unfolding get_engine
get_engine-IsShared abspath path cache =
    or_create-IsShared (abspath path) cache (first_such (is_at (abspath path)) cache.engines) refl

-- The cache after the calls for some paths.
abbrev pub after_calls : (String → String) → List String → EngineCache → EngineCache
after_calls abspath [] cache = cache
after_calls abspath (path ∷ paths) cache =
    after_calls abspath paths (get_engine abspath path cache).1

after_calls_keeps :
    (abspath : String → String) (paths : List String) (cache : EngineCache)
    → Ordered cache.created cache.engines
    → let left = after_calls abspath paths cache in
      Ordered left.created left.engines
      × ((q : String) (e : Engine) → Holds q e cache → Holds q e left)
after_calls_keeps abspath [] cache ord = (ord, λ q e h. h)
after_calls_keeps abspath (path ∷ paths) cache ord =
    let one = get_engine-IsShared abspath path cache ord in
    let (ord', rest) =
      after_calls_keeps abspath paths (get_engine abspath path cache).1 one.ordered in
    (ord', λ q e h. rest q e (one.others q e h))

found_below :
    (n : ℕ) (q : String) (e : Engine) (es : List Engine)
    → Ordered n es
    → first_such (is_at q) es ≡ some e
    → e.number < n
found_below n q e [] ord h = absurd (cc)
found_below n q e (x ∷ es) ord h = elim (Bool-cases (is_at q x)) [
  | inl is ↦ let same : x ≡ e = ground arith in subst (λ (y : Engine). y.number < n) same ord.0
  | inr not_is ↦
      let below = found_below x.number q e es ord.1 (ground arith) in omega (arith, below, ord.0)
]

-- Two paths have engines of different numbers.
found_apart :
    (n : ℕ) (p q : String) (e f : Engine) (es : List Engine)
    → Ordered n es
    → p ≢ q
    → first_such (is_at p) es ≡ some e
    → first_such (is_at q) es ≡ some f
    → e.number ≢ f.number
found_apart n p q e f [] ord ne h k = absurd (cc)
found_apart n p q e f (x ∷ es) ord ne h k = elim (Bool-cases (is_at p x)) [
  | inl at_p ↦
      let same : x ≡ e = ground arith in
      elim (Bool-cases (is_at q x)) [
        | inl at_q ↦ λ _. ne (sym ((eq_iff x.path p).0 at_p) ∙ (eq_iff x.path q).0 at_q)
        | inr not_q ↦
            let below = found_below x.number q f es ord.1 (ground arith) in
            let head = ap (λ (y : Engine). y.number) same in
            λ number. omega (arith, below, head, number)
      ]
  | inr not_p ↦ elim (Bool-cases (is_at q x)) [
    | inl at_q ↦
        let same : x ≡ f = ground arith in
        let below = found_below x.number p e es ord.1 (ground arith) in
        let head = ap (λ (y : Engine). y.number) same in
        λ number. omega (arith, below, head, number)
    | inr not_q ↦ found_apart x.number p q e f es ord.1 ne (ground arith) (ground arith)
  ]
]

-- However many engines are asked for in between: the same normalised path has the same engine again,
-- and another one an engine of another number.
pub get_engine_again :
    (abspath : String → String) (path other : String) (paths : List String) (cache : EngineCache)
    → Ordered cache.created cache.engines
    → let (e, cache') = get_engine abspath path cache in
      let later = after_calls abspath paths cache' in
      let (f, _) = get_engine abspath other later in
      (abspath other ≡ abspath path → f ≡ e) × (abspath other ≢ abspath path → f.number ≢ e.number)
get_engine_again abspath path other paths cache ord =
    let one = get_engine-IsShared abspath path cache ord in
    let e = (get_engine abspath path cache).0 in
    let cache' = (get_engine abspath path cache).1 in
    let later = after_calls abspath paths cache' in
    let (ord', keeps) = after_calls_keeps abspath paths cache' one.ordered in
    let two = get_engine-IsShared abspath other later ord' in
    let f = (get_engine abspath other later).0 in
    let last = (get_engine abspath other later).1 in
    let still = two.others (abspath path) e (keeps (abspath path) e one.held) in
    (
      λ same.
          some-injective (sym two.held ∙ ap (λ p. first_such (is_at p) last.engines) same ∙ still),
      λ differ.
          found_apart last.created (abspath other) (abspath path) f e last.engines two.ordered
            differ two.held still,
    )
  where
    some-injective : {a b : Engine} → ◌≡◌ {A = Option Engine} (some a) (some b) → a ≡ b
    some-injective h = cc

-- Provided that the catalogues of two tenants have different normalised paths: two different tenants
-- whose ids are valid get engines of different numbers, however many tenants come in between.
pub get_tenant_session_factory_apart :
    (abspath : String → String) (base_dir t u : String) (paths : List String) (cache : EngineCache)
    → Ordered cache.created cache.engines
    → is_tenant_id t ≡ true
    → is_tenant_id u ≡ true
    → (db_path base_dir u ≢ db_path base_dir t
        → abspath (db_path base_dir u) ≢ abspath (db_path base_dir t))
    → t ≢ u
    → (e f : Engine) × (let (r, cache') = get_tenant_session_factory abspath base_dir t cache in
        let (r', _) =
          get_tenant_session_factory abspath base_dir u (after_calls abspath paths cache') in
        (r ≡ ok e) × (r' ≡ ok f) × (f.number ≢ e.number))
unfolding get_tenant_session_factory
get_tenant_session_factory_apart abspath base_dir t u paths cache ord vt vu apart ne =
    let pt = db_path base_dir t in
    let pu = db_path base_dir u in
    let (e, cache') = get_engine abspath pt cache in
    let f = (get_engine abspath pu (after_calls abspath paths cache')).0 in
    (
      e,
      f,
      rw
          (
            get_tenant_db_path-is_tenant_id base_dir t vt,
            get_tenant_db_path-is_tenant_id base_dir u vu,
          )
          (
            refl,
            refl,
            (get_engine_again abspath pt pu paths cache ord).1
                (apart (db_path_ne base_dir u t (λ same. ne (sym same)))),
          ),
    )
