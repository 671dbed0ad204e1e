-- ===== src/Engines.antt =====
-- get_engine and get_tenant_session_factory of src/boveda/database.py: the engines that the process
-- keeps, by normalised path. An engine is its number in the order of creation; os.path.abspath is a
-- parameter, and `begins` says that do_begin listens: each transaction starts with BEGIN IMMEDIATE.
-- The lock makes a call one step; the pragmas are left out.
pub mod Shared
pub mod Begins
use boveda_pyme.Prelude.{
  ℕ, ◌+◌, String, Bool, true, Option, none, some, List, [], ◌∷◌, str_eq, first_such, Result, ok,
  err,
}
use boveda_pyme.Tenants.{TenantError, get_tenant_db_path}

pub record Engine : Type 0 where
  pub path : String
  pub number : ℕ
  pub begins : Bool

-- `_ENGINE_CACHE`, and how many engines were created.
pub record EngineCache : Type 0 where
  pub engines : List Engine
  pub created : ℕ

abbrev pub is_at : String → Engine → Bool
is_at p e = str_eq e.path p

-- By what is found under the normalised path.
abbrev pub or_create : String → EngineCache → Option Engine → Engine × EngineCache
or_create p cache (some e) = (e, cache)
or_create p cache none =
    let e : Engine = record { path = p; number = cache.created; begins = true } in
    (e, record { engines = e ∷ cache.engines; created = cache.created + 1 })

unfoldable pub get_engine : (String → String) → String → EngineCache → Engine × EngineCache
get_engine abspath db_path cache =
    let norm_path = abspath db_path in
    or_create norm_path cache (first_such (is_at norm_path) cache.engines)

abbrev pub with_engine :
    (String → String)
    → EngineCache
    → Result TenantError String
    → Result TenantError Engine × EngineCache
with_engine abspath cache (ok path) =
    let (e, cache') = get_engine abspath path cache in (ok e, cache')
with_engine abspath cache (err e) = (err e, cache)

-- `init_db(get_tenant_db_path(…))`: the engine that the sessions of a tenant are bound to.
unfoldable pub get_tenant_session_factory :
    (String → String) → String → String → EngineCache → Result TenantError Engine × EngineCache
unfolding get_engine
get_tenant_session_factory abspath base_dir tenant_id cache =
    with_engine abspath cache (get_tenant_db_path base_dir tenant_id)
