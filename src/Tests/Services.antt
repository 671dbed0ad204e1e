-- ===== src/Tests/Services.antt =====
-- Witnesses for the engines, the endpoints, the connectors, the retention classes and the keys.
use Prim.Native.String.{◌++◌ as text_append}
use text.Mathlib.TextLemmas.{append_cancel_left}
use boveda_pyme.Prelude.{
  ℕ, String, ◌≡◌, ◌≢◌, ◌⊎◌, refl, true, false, Option, some, none, List, [], ◌∷◌, arith, ok, All,
  eq_iff, err, ◌+◌, ◌-◌, ◌==◌, length, ap, Bool, ◌%◌, sym, str_eq, append-nil, if◌then◌else◌,
  some_of, ◌&&◌, not,
}
use boveda_pyme.Engines.{Engine, EngineCache, get_tenant_session_factory}
use boveda_pyme.Engines.Shared.{after_calls, get_tenant_session_factory_apart}
use boveda_pyme.Redaction.{redact_pii_and_secrets, contains, str, other}
use boveda_pyme.Schemas.{validate_destination_file, split_slash}
use boveda_pyme.Catalog.{Db, Snapshot, completed, is_completed}
use boveda_pyme.Tests.Samples.{sample_db, sample_snapshot, sample_world}
use boveda_pyme.Tokens.{TokenClaims, verify_access_token}
use boveda_pyme.Tokens.Base64.{IsBase64, b64url_decode}
use boveda_pyme.Tokens.Created.{create_access_token, verify-create_access_token}
use boveda_pyme.Tenants.{is_tenant_id, every_char, db_path, get_tenant_db_path, sanitize}
use boveda_pyme.Api.{
  list_snapshots, get_stats, get_prometheus_metrics, trigger_backup, require_roles,
  get_current_claims, tenant_admin, operator, Verify,
}
use boveda_pyme.Api.Isolated.{trigger_backup-eq-ok, answers_isolated, replace}
use boveda_pyme.Connectors.{
  received, no_answer, stream_subprocess_with_watchdog, stream_loop, check_exit, streaming_timeout,
  process_failed, build_mysql_dump_command, cnf_body,
}
use boveda_pyme.Connectors.Streamed.{stream_subprocess_with_watchdog_lem, IsStreamed}
use boveda_pyme.Pipeline.Tasks.{exited}
use boveda_pyme.Purge.{DeleteObjects}
use boveda_pyme.Storage.{delete_objects_s3, delete_objects_s3_lem, DeletesBatch, is_key}
use boveda_pyme.Retention.Classify.{
  classify_snapshots, protected, protect, sort_by_timestamp, insert_ascending,
}
use boveda_pyme.Retention.Classify.Kept.{classify_snapshots_lem, Keeps, given_up}
use boveda_pyme.Retention.Classify.Ends.{IsOldest, IsNewest}

abbrev sample_claims : TokenClaims
sample_claims = record {
  iss = "boveda-pyme:auth";
  sub = "ana";
  aud = "boveda-pyme:api";
  tenant_id = "pyme-1";
  role = "Operator";
  exp = 50;
  iat = 10;
  jti = "j";
}

abbrev sample_token : Option (List String)
sample_token = some ("t" ∷ [])

abbrev sample_answer : String × String
sample_answer = ("pyme-1", "ana")

abbrev knows_sample : Verify
knows_sample token = ok sample_claims

abbrev other_tenant : String
other_tenant = "pyme-2"

-- Four characters for each byte, and none of padding.
abbrev encode_sample : List ℕ → List ℕ
encode_sample [] = []
encode_sample (b ∷ bs) = (b + 100) ∷ 65 ∷ 65 ∷ 65 ∷ encode_sample bs

abbrev decode_groups : List ℕ → List ℕ
decode_groups (c ∷ _ ∷ _ ∷ _ ∷ cs) = (c - 100) ∷ decode_groups cs
decode_groups _ = []

decode-encode : (raw : List ℕ) → decode_groups (encode_sample raw) ≡ raw
decode-encode [] = refl
decode-encode (b ∷ bs) =
    let same : b + 100 - 100 ≡ b = omega arith in rw same (ap (◌∷◌ b) (decode-encode bs))

plain-encode : (raw : List ℕ) → All (λ c. (c == b'=') ≡ false) (encode_sample raw)
plain-encode [] = tt
plain-encode (b ∷ bs) = (ground arith, (refl, (refl, (refl, plain-encode bs))))

whole-encode : (raw : List ℕ) → (length (encode_sample raw) + 0) % 4 ≡ 0
whole-encode [] = refl
whole-encode (b ∷ bs) = omega (arith, whole-encode bs)

sample-IsBase64 : IsBase64 encode_sample (λ t. some (decode_groups t))
sample-IsBase64 = record {
  undone = λ raw. ap some (decode-encode raw);
  padded = λ raw. (
    encode_sample raw,
    0,
    sym (append-nil (encode_sample raw)),
    plain-encode raw,
    omega arith,
    whole-encode raw,
  );
}

verify-create_access_token_example :
    verify_access_token
      (b64url_decode (λ t. some (decode_groups t)))
      (λ b. some (record { alg = some "EdDSA"; typ = some "JWT" }))
      (λ s h p. true)
      (λ b. some sample_claims)
      20
      (create_access_token encode_sample (λ h. 1 ∷ []) (λ c. 2 ∷ []) (λ h p. 3 ∷ []) sample_claims)
    ≡ ok sample_claims
verify-create_access_token_example =
    verify-create_access_token encode_sample (λ h. 1 ∷ []) (λ c. 2 ∷ []) (λ h p. 3 ∷ [])
      (λ t. some (decode_groups t)) (λ b. some (record { alg = some "EdDSA"; typ = some "JWT" }))
      (λ s h p. true) (λ b. some sample_claims) 20 sample_claims sample-IsBase64 refl refl
      (λ h p. refl) (omega arith) refl refl

trigger_backup-eq-ok_example :
    (token : List String) × (claims : TokenClaims) × (sample_token ≡ some token)
    × (knows_sample token ≡ ok claims)
    × ((claims.role ≡ tenant_admin) ⊎ (claims.role ≡ operator))
    × (sample_answer ≡ (claims.tenant_id, claims.sub))
unfolding trigger_backup require_roles get_current_claims
trigger_backup-eq-ok_example =
    trigger_backup-eq-ok knows_sample sample_token {answer = sample_answer} refl

empty_db : Db
empty_db = record { snapshots = []; chunk_pool = []; snapshot_chunks = [] }

answers_isolated_example :
    let replaced = replace (db_path "data/tenants" other_tenant) sample_db (λ p. sample_db) in
    (list_snapshots "data/tenants" replaced knows_sample sample_token
      ≡ list_snapshots "data/tenants" (λ p. sample_db) knows_sample sample_token)
    × (get_stats "data/tenants" replaced knows_sample sample_token
        ≡ get_stats "data/tenants" (λ p. sample_db) knows_sample sample_token)
    × (get_prometheus_metrics "data/tenants" replaced knows_sample sample_token
        ≡ get_prometheus_metrics "data/tenants" (λ p. sample_db) knows_sample sample_token)
unfolding is_tenant_id every_char
answers_isolated_example =
    answers_isolated "data/tenants" (λ p. sample_db) knows_sample ("t" ∷ []) sample_claims
      other_tenant sample_db refl refl different
  where
    different : sample_claims.tenant_id ≢ other_tenant
    different e = let same = (eq_iff sample_claims.tenant_id other_tenant).1 e in cc

stream_subprocess_with_watchdog_lem_example :
    (lost : List ℕ) × IsStreamed 2
      (5 ∷ 6 ∷ 7 ∷ [])
      true
      (stream_subprocess_with_watchdog 2 30 60
        (received (5 ∷ []) ∷ received (6 ∷ []) ∷ received (7 ∷ []) ∷ no_answer ∷ [])
        false
        (exited 0)).0
      lost
stream_subprocess_with_watchdog_lem_example =
    stream_subprocess_with_watchdog_lem 2 30 60 (omega arith)
      (received (5 ∷ []) ∷ received (6 ∷ []) ∷ received (7 ∷ []) ∷ no_answer ∷ []) false (exited 0)
      (omega arith, (omega arith, (omega arith, tt)))

-- A key that the bucket refuses to delete, and a call that returns all the same.
abbrev denies_cc : String → Bool
denies_cc = str_eq "chunks/cc.bin"

abbrev delete_most : DeleteObjects
delete_most ks s3 = (true, λ k. if some_of (str_eq k) ks && not (denies_cc k) then none else s3 k)

delete_most-DeletesBatch : DeletesBatch delete_most denies_cc
delete_most-DeletesBatch = record {
  spares = λ ks s3 k b e. ground arith;
  deletes = λ ks s3 k b done e nd. ground arith;
}

abbrev two_keys : List String
two_keys = "chunks/bb.bin" ∷ "chunks/cc.bin" ∷ []

delete_objects_s3_lem_example :
    let (done, s3') = delete_objects_s3 delete_most two_keys sample_world.s3 in
    ((is_key "chunks/bb.bin" two_keys ≡ true)
      ⊎ (s3' "chunks/bb.bin" ≡ sample_world.s3 "chunks/bb.bin"))
    × ((done ≡ false)
        ⊎ ((is_key "chunks/bb.bin" two_keys ≡ false)
            ⊎ ((denies_cc "chunks/bb.bin" ≡ true) ⊎ (s3' "chunks/bb.bin" ≡ none))))
delete_objects_s3_lem_example =
    delete_objects_s3_lem delete_most denies_cc two_keys sample_world.s3 "chunks/bb.bin"
      delete_most-DeletesBatch

abbrev at_time : String → ℕ → Snapshot
at_time i t = record (sample_snapshot i completed) { timestamp = t }

abbrev old_snapshots : List Snapshot
old_snapshots = at_time "s1" 5 ∷ at_time "s2" 6 ∷ at_time "s3" 7 ∷ []

-- A calendar with one month and one week.
abbrev one_period : ℕ → ℕ × ℕ
one_period t = (1, 1)

classify_snapshots_runs :
    classify_snapshots one_period one_period (λ now k. now) old_snapshots 1000000
    ≡ at_time "s2" 6 ∷ []
unfolding classify_snapshots protected protect sort_by_timestamp insert_ascending
classify_snapshots_runs = refl

classify_snapshots_lem_example :
    let gone = given_up one_period one_period (λ now k. now) old_snapshots 1000000 in
    Keeps IsOldest gone old_snapshots
    × Keeps IsNewest gone old_snapshots
    × Unit {0}
    × All
        (λ (s : Snapshot). is_completed s.estado ≡ true)
        (classify_snapshots one_period one_period (λ now k. now) old_snapshots 1000000)
classify_snapshots_lem_example =
    classify_snapshots_lem one_period one_period (λ now k. now) old_snapshots 1000000 11 0
      (omega arith) (omega arith)

stream_runs :
    stream_subprocess_with_watchdog 2 30 60
      (received (5 ∷ []) ∷ received (6 ∷ []) ∷ received (7 ∷ []) ∷ no_answer ∷ [])
      false
      (exited 0)
    ≡ ((5 ∷ 6 ∷ []) ∷ [], err (streaming_timeout 60))
unfolding stream_subprocess_with_watchdog stream_loop check_exit
stream_runs = refl

stream_fails :
    stream_subprocess_with_watchdog 2 30 60 (received (5 ∷ []) ∷ []) false (exited 1)
    ≡ ((5 ∷ []) ∷ [], err (process_failed (exited 1)))
unfolding stream_subprocess_with_watchdog stream_loop check_exit
stream_fails = refl

mysql_runs :
    build_mysql_dump_command
      (λ n. "3306")
      "/tmp/b.cnf"
      "shop"
      "localhost"
      3306
      "root"
      (some "pw")
      []
    ≡ (
      "mysqldump" ∷ "--defaults-extra-file=/tmp/b.cnf" ∷ "--single-transaction" ∷ "--quick"
          ∷ "--skip-lock-tables" ∷ "--routines" ∷ "--triggers" ∷ "--events" ∷ "shop" ∷ [],
      some (record {
        path = "/tmp/b.cnf";
        body = "[client]\nhost=localhost\nport=3306\nuser=root\npassword=pw\n";
      }),
    )
unfolding build_mysql_dump_command cnf_body
mysql_runs = refl

tenant_path_runs : get_tenant_db_path "data/tenants" "a.b/c" ≡ ok "data/tenants/abc/snapshots.db"
unfolding get_tenant_db_path sanitize
tenant_path_runs = refl

traversal_runs : validate_destination_file (b'a' ∷ b'\\' ∷ b'.' ∷ b'.' ∷ b'/' ∷ b'b' ∷ []) ≡ none
unfolding validate_destination_file split_slash
traversal_runs = refl

redaction_runs :
    redact_pii_and_secrets
      (λ t. t)
      (λ t. false)
      (λ t. t)
      (("db_password", str "x") ∷ ("size", other) ∷ ("source", str "db-prod") ∷ [])
    ≡ ("db_password", str "[REDACTED]") ∷ ("size", other) ∷ ("source", str "db-prod") ∷ []
unfolding redact_pii_and_secrets contains
redaction_runs = refl

abbrev no_engines : EngineCache
no_engines = record { engines = []; created = 0 }

get_tenant_session_factory_apart_example :
    (e f : Engine) × (let (r, cache) =
        get_tenant_session_factory (text_append "/srv/") "data" "acme" no_engines in
      let (r', _) =
        get_tenant_session_factory
          (text_append "/srv/")
          "data"
          "beta"
          (after_calls (text_append "/srv/") ("x.db" ∷ []) cache) in
      (r ≡ ok e) × (r' ≡ ok f) × (f.number ≢ e.number))
unfolding is_tenant_id every_char
get_tenant_session_factory_apart_example =
    get_tenant_session_factory_apart (text_append "/srv/") "data" "acme" "beta" ("x.db" ∷ [])
      no_engines tt refl refl (λ ne e. ne (append_cancel_left "/srv/" _ _ e))
      (λ e. ground (arith, eq_iff "acme" "beta"))
