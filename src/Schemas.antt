-- ===== src/Schemas.antt =====
-- The requests of src/boveda/schemas.py, and when they are valid. pydantic's strip of white space is
-- the parameter `strip`; it leaves the fields of a Literal type as they are. A path is the list of
-- its code points.
pub mod Confined
pub mod Contained
use Prim.Native.String.{count}
use boveda_pyme.Prelude.{
  ℕ, String, Bool, true, false, not, ◌&&◌, ◌||◌, Option, none, some, List, [], ◌∷◌, map, leb, ◌==◌,
  if◌then◌else◌, length, some_of, str_eq,
}
use boveda_pyme.Tenants.{is_tenant_id, is_safe_identifier, within}

pub record BackupJobRequest : Type 0 where
  pub tenant_id : String
  pub tipo : String
  pub source_type : String
  pub source_identifier : String
  pub db_name : String
  pub host : String
  pub port : ℕ
  pub user : String

abbrev pub one_of : String → List String → Bool
one_of t ts = some_of (str_eq t) ts

unfoldable pub is_valid_backup_job : BackupJobRequest → Bool
is_valid_backup_job r =
    is_tenant_id r.tenant_id
    && one_of r.tipo ("DIARIO" ∷ "SEMANAL" ∷ "MENSUAL" ∷ [])
    && one_of r.source_type ("postgres" ∷ "mysql" ∷ "sqlite" ∷ [])
    && within 1 128 r.source_identifier
    && is_safe_identifier r.db_name
    && within 1 255 r.host
    && (leb 1 r.port && leb r.port 65535)
    && is_safe_identifier r.user

abbrev pub strip_backup_job : (String → String) → BackupJobRequest → BackupJobRequest
strip_backup_job strip r = record r {
  tenant_id = strip r.tenant_id;
  source_identifier = strip r.source_identifier;
  db_name = strip r.db_name;
  host = strip r.host;
  user = strip r.user;
}

abbrev pub accept_if {ℓ} : {A : Type ℓ} → (A → Bool) → A → Option A
accept_if p a = if p a then some a else none

unfoldable pub validate_backup_job : (String → String) → BackupJobRequest → Option BackupJobRequest
unfolding is_valid_backup_job
validate_backup_job strip r = accept_if is_valid_backup_job (strip_backup_job strip r)

-- `v.replace("\\", "/")`
abbrev pub to_slash : ℕ → ℕ
to_slash c = if c == b'\\' then b'/' else c

abbrev pub put_first : ℕ → List (List ℕ) → List (List ℕ)
put_first c [] = (c ∷ []) ∷ []
put_first c (part ∷ parts) = (c ∷ part) ∷ parts

-- `split("/")`
unfoldable pub split_slash : List ℕ → List (List ℕ)
split_slash [] = [] ∷ []
split_slash (c ∷ cs) =
    let rest = split_slash cs in if c == b'/' then [] ∷ rest else put_first c rest

abbrev pub is_up : List ℕ → Bool
is_up (a ∷ b ∷ []) = (a == b'.') && (b == b'.')
is_up _ = false

abbrev pub parts_of : List ℕ → List (List ℕ)
parts_of v = split_slash (map to_slash v)

unfoldable pub validate_destination_file : List ℕ → Option (List ℕ)
unfolding split_slash
validate_destination_file v =
    if some_of (λ c. c == 0) v || some_of is_up (parts_of v) then none else some v
