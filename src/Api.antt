-- ===== src/Api.antt =====
-- The endpoints of src/boveda/api.py: who may call them, and what they answer from the tenant's own
-- catalogue. The catalogues are a function from their paths. `verify` is verify_access_token with the
-- key of the server, and the bearer token comes in the parts that Python's split gives. FastAPI, the
-- text of the answers and the memory figure of the metrics are left out.
pub mod Isolated
pub mod ServerKeys
use boveda_pyme.Prelude.{
  ℕ, String, Bool, true, false, not, Option, none, some, List, [], ◌∷◌, map, str_eq, if◌then◌else◌,
  length, take, select, some_of, max, ◌>>=◌, ◌>>◌, raise_if, Result, ok, err, ltb,
}
use boveda_pyme.Catalog.{Snapshot, Db, Estado, is_completed, failed}
use boveda_pyme.Cli.{order_by_timestamp}
use boveda_pyme.Tickets.{TicketStore, TicketError, create_ticket, consume_ticket}
use boveda_pyme.Tokens.{TokenClaims, TokenAuthError}
use boveda_pyme.Tenants.{TenantError, get_tenant_db_path}

-- HTTPException with 401 and 403, and what is not caught.
pub data ApiError : Type 0 where
  no_credentials : ApiError
  bad_token : TokenAuthError → ApiError
  bad_ticket : TicketError → ApiError
  forbidden : ApiError
  no_tenant : TenantError → ApiError
  uncaught : TicketError → ApiError

abbrev pub raising : {E A : Type 0} → (E → ApiError) → Result E A → Result ApiError A
raising f (ok a) = ok a
raising f (err e) = err (f e)

abbrev pub Verify : Type 0
Verify = List String → Result TokenAuthError TokenClaims

unfoldable pub get_current_claims : Verify → Option (List String) → Result ApiError TokenClaims
get_current_claims verify none = err no_credentials
get_current_claims verify (some token) = raising bad_token (verify token)

abbrev pub tenant_admin : String
tenant_admin = "TenantAdmin"

abbrev pub operator : String
operator = "Operator"

unfoldable pub require_roles :
    List String → Verify → Option (List String) → Result ApiError TokenClaims
unfolding get_current_claims
require_roles allowed_roles verify credentials = do
  claims ← get_current_claims verify credentials
  raise_if (not (some_of (str_eq claims.role) allowed_roles)) forbidden
  ok claims

-- `POST /api/backup`: the tenant and who asks.
unfoldable pub trigger_backup : Verify → Option (List String) → Result ApiError (String × String)
unfolding require_roles
trigger_backup verify credentials = do
  claims ← require_roles (tenant_admin ∷ operator ∷ []) verify credentials
  ok (claims.tenant_id, claims.sub)

-- What `GET /api/snapshots` shows of a snapshot.
pub record Row : Type 0 where
  pub id : String
  pub estado : Estado
  pub tipo : String
  pub timestamp : ℕ
  pub source : String × String

abbrev pub row_of_snapshot : Snapshot → Row
row_of_snapshot s = record {
  id = s.id;
  estado = s.estado;
  tipo = s.tipo;
  timestamp = s.timestamp;
  source = (s.source_type, s.source_identifier);
}

abbrev pub count_of : (Snapshot → Bool) → Db → ℕ
count_of p db = length (select p db.snapshots)

abbrev pub is_failed : Estado → Bool
is_failed failed = true
is_failed _ = false

-- The numbers of `GET /metrics`. The ratio is that of the two last, at least one below.
pub record Metrics : Type 0 where
  pub tenant_id : String
  pub completed_snapshots : ℕ
  pub failed_snapshots : ℕ
  pub unique_chunks : ℕ
  pub referenced_chunks : ℕ
  pub dedup_ratio : ℕ × ℕ

abbrev pub ratio : ℕ → ℕ → ℕ × ℕ
ratio referenced unique = if ltb 0 unique then (referenced, max unique 1) else (1, 1)

module _ (base_dir : String) (catalogues : String → Db) where
  -- The catalogue of a session for the tenant.
  unfoldable pub tenant_db : String → Result ApiError Db
  tenant_db tenant_id = do
    path ← raising no_tenant (get_tenant_db_path base_dir tenant_id)
    ok (catalogues path)

  -- `GET /api/snapshots`
  unfoldable pub list_snapshots : Verify → Option (List String) → Result ApiError (List Row)
  unfolding get_current_claims tenant_db
  list_snapshots verify credentials = do
    claims ← get_current_claims verify credentials
    db ← tenant_db claims.tenant_id
    ok (map row_of_snapshot (take 20 (order_by_timestamp db.snapshots)))

  -- `GET /api/stats`: the tenant, its completed snapshots and its chunks.
  unfoldable pub get_stats : Verify → Option (List String) → Result ApiError (String × ℕ × ℕ)
  unfolding get_current_claims tenant_db
  get_stats verify credentials = do
    claims ← get_current_claims verify credentials
    db ← tenant_db claims.tenant_id
    ok (claims.tenant_id, count_of (λ s. is_completed s.estado) db, length db.chunk_pool)

  -- `GET /metrics`: the dependency raises before `claims` could be None.
  unfoldable pub get_prometheus_metrics : Verify → Option (List String) → Result ApiError Metrics
  unfolding get_current_claims tenant_db
  get_prometheus_metrics verify credentials = do
    claims ← get_current_claims verify credentials
    db ← tenant_db claims.tenant_id
    ok (record {
      tenant_id = claims.tenant_id;
      completed_snapshots = count_of (λ s. is_completed s.estado) db;
      failed_snapshots = count_of (λ s. is_failed s.estado) db;
      unique_chunks = length db.chunk_pool;
      referenced_chunks = length db.snapshot_chunks;
      dedup_ratio = ratio (length db.snapshot_chunks) (length db.chunk_pool);
    })

-- `POST /auth/ws-ticket`: the store with a ticket of 30 seconds, which are the ticks of its clock.
unfoldable pub create_websocket_ticket :
    Verify
    → Option (List String)
    → String
    → ℕ
    → ℕ
    → TicketStore TokenClaims
    → Result ApiError (String × TicketStore TokenClaims)
unfolding get_current_claims
create_websocket_ticket verify credentials ticket_id start now store = do
  claims ← get_current_claims verify credentials
  store' ← raising uncaught (create_ticket ticket_id claims 30 start now store)
  ok (ticket_id, store')

abbrev pub connect_data : TokenClaims → String × String
connect_data claims = (claims.tenant_id, claims.sub)

abbrev pub connected :
    Result TicketError TokenClaims × TicketStore TokenClaims
    → Result ApiError (String × String) × TicketStore TokenClaims
connected (ok claims, store) = (ok (connect_data claims), store)
connected (err e, store) = (err (bad_ticket e), store)

-- `GET /api/events/sse`: the tenant and the user of the first event.
unfoldable pub sse_events :
    ℕ
    → String
    → TicketStore TokenClaims
    → Result ApiError (String × String) × TicketStore TokenClaims
sse_events now ticket store = connected (consume_ticket now ticket store)
