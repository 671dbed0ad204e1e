-- ===== src/Api/Isolated.antt =====
-- Who is let in by src/boveda/api.py, and what of other tenants an answer can show.
use boveda_pyme.Prelude.{
  String, ◌≡◌, ◌≢◌, refl, sym, ap, ◌∙◌, true, false, not, Option, none, some, List, [], ◌∷◌, arith,
  str_eq, eq_iff, if◌then◌else◌, some_of, ◌⊎◌, Result, ok, err, raise_if-eq-ok, >>=-eq-ok,
  ok-injective, subst,
}
use boveda_pyme.Catalog.{Db}
use boveda_pyme.Tokens.{TokenClaims}
use boveda_pyme.Tenants.{is_tenant_id, db_path}
use boveda_pyme.Tenants.Paths.{get_tenant_db_path-is_tenant_id, db_path_ne, str_ne}
use boveda_pyme.Api.{
  ApiError, Verify, get_current_claims, require_roles, trigger_backup, tenant_admin, operator,
  tenant_db, list_snapshots, get_stats, get_prometheus_metrics, raising, bad_token, forbidden,
}

-- The catalogues after one of them is replaced.
abbrev pub replace : String → Db → (String → Db) → String → Db
replace path db catalogues p = if str_eq p path then db else catalogues p

raising-eq-ok :
    {E A : Type 0} (f : E → ApiError) (r : Result E A) {a : A} → raising f r ≡ ok a → r ≡ ok a
raising-eq-ok f (ok b) h = ap ok (ok-injective h)
raising-eq-ok f (err e) h = cc

get_current_claims-eq-ok :
    (verify : Verify) (credentials : Option (List String)) {claims : TokenClaims}
    → get_current_claims verify credentials ≡ ok claims
    → (token : List String) × (credentials ≡ some token) × (verify token ≡ ok claims)
unfolding get_current_claims
get_current_claims-eq-ok verify none h = cc
get_current_claims-eq-ok verify (some token) h =
    (token, refl, raising-eq-ok bad_token (verify token) h)

one_of :
    (role : String)
    → not (some_of (str_eq role) (tenant_admin ∷ operator ∷ [])) ≡ false
    → (role ≡ tenant_admin) ⊎ (role ≡ operator)
one_of role h = ground (arith, eq_iff role tenant_admin, eq_iff role operator)

-- A backup is started only for a token that verifies, whose role is TenantAdmin or Operator, and it
-- names the tenant and the user of the token.
pub trigger_backup-eq-ok :
    (verify : Verify) (credentials : Option (List String)) {answer : String × String}
    → trigger_backup verify credentials ≡ ok answer
    → (token : List String) × (claims : TokenClaims) × (credentials ≡ some token)
      × (verify token ≡ ok claims)
      × ((claims.role ≡ tenant_admin) ⊎ (claims.role ≡ operator))
      × (answer ≡ (claims.tenant_id, claims.sub))
unfolding trigger_backup require_roles
trigger_backup-eq-ok verify credentials {answer} h =
    let (claims, allowed, h1) =
      >>=-eq-ok (require_roles (tenant_admin ∷ operator ∷ []) verify credentials) _ h in
    let (found, known, h2) = >>=-eq-ok (get_current_claims verify credentials) _ allowed in
    let (role, h3) =
      raise_if-eq-ok (not (some_of (str_eq found.role) (tenant_admin ∷ operator ∷ []))) forbidden _
        h2 in
    let same : found ≡ claims = ok-injective h3 in
    let (token, e, verified) = get_current_claims-eq-ok verify credentials known in
    (
      token,
      claims,
      e,
      verified ∙ ap ok same,
      subst (λ c. (c.role ≡ tenant_admin) ⊎ (c.role ≡ operator)) same (one_of found.role role),
      sym (ok-injective h1),
    )

module _ (base_dir : String) (catalogues : String → Db) where
  tenant_db-replace :
      (t u : String) (db : Db)
      → is_tenant_id t ≡ true
      → t ≢ u
      → tenant_db base_dir (replace (db_path base_dir u) db catalogues) t
        ≡ tenant_db base_dir catalogues t
  unfolding tenant_db
  tenant_db-replace t u db v ne =
      let other = str_ne (db_path base_dir t) (db_path base_dir u) (db_path_ne base_dir t u ne) in
      rw (get_tenant_db_path-is_tenant_id base_dir t v, other) refl

  -- A request of a tenant whose id is valid is answered from the tenant's own catalogue: the list,
  -- the statistics and the metrics are the same whatever the catalogue of another tenant holds.
  pub answers_isolated :
      (verify : Verify) (token : List String) (claims : TokenClaims) (u : String) (db : Db)
      → verify token ≡ ok claims
      → is_tenant_id claims.tenant_id ≡ true
      → claims.tenant_id ≢ u
      → let replaced = replace (db_path base_dir u) db catalogues in
        (list_snapshots base_dir replaced verify (some token)
          ≡ list_snapshots base_dir catalogues verify (some token))
        × (get_stats base_dir replaced verify (some token)
            ≡ get_stats base_dir catalogues verify (some token))
        × (get_prometheus_metrics base_dir replaced verify (some token)
            ≡ get_prometheus_metrics base_dir catalogues verify (some token))
  unfolding list_snapshots get_stats get_prometheus_metrics get_current_claims
  answers_isolated verify token claims u db k v ne =
      let same = tenant_db-replace claims.tenant_id u db v ne in
      (rw (k, same) refl, rw (k, same) refl, rw (k, same) refl)
