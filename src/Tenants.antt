-- ===== src/Tenants.antt =====
-- Which catalogue a tenant has: get_tenant_db_path of src/boveda/database.py, and the validators of
-- src/boveda/schemas.py for tenants, identifiers and files. The directory `base_dir` is given without
-- a slash at its end. The strip of white space and the lengths in pydantic's fields are in the
-- validators that follow them.
pub mod Paths
use Prim.Native.Char.{code}
use Prim.Native.String.{◌++◌ as text_append, count}
use boveda_pyme.Prelude.{
  ℕ, String, Bool, true, false, not, ◌&&◌, ◌||◌, Option, none, some, List, [], ◌∷◌, leb, ◌==◌,
  if◌then◌else◌, some_of, str_eq, ◌>>◌, raise_if, Result, ok, err,
}

-- `[a-zA-Z0-9_]`
abbrev pub is_word : ℕ → Bool
is_word c =
    (leb b'a' c && leb c b'z')
    || (leb b'A' c && leb c b'Z')
    || (leb b'0' c && leb c b'9')
    || (c == b'_')

-- `[a-zA-Z0-9_-]`
abbrev pub is_id_char : ℕ → Bool
is_id_char c = is_word c || (c == b'-')

-- `re.sub(r"[^a-zA-Z0-9_-]", "", tenant_id)`
unfoldable pub sanitize : String → String
sanitize String.[] = ""
sanitize (String.◌∷◌ c s) =
    let rest = sanitize s in if is_id_char (code c) then String.◌∷◌ c rest else rest

unfoldable pub every_char : (ℕ → Bool) → String → Bool
every_char p String.[] = true
every_char p (String.◌∷◌ c s) = let rest = every_char p s in p (code c) && rest

pub data TenantError : Type 0 where
  empty_tenant : TenantError

abbrev pub db_path : String → String → String
db_path base_dir i = text_append base_dir (text_append "/" (text_append i "/snapshots.db"))

unfoldable pub get_tenant_db_path : String → String → Result TenantError String
unfolding sanitize
get_tenant_db_path base_dir tenant_id = do
  raise_if (str_eq (sanitize tenant_id) "") empty_tenant
  ok (db_path base_dir (sanitize tenant_id))

abbrev pub within : ℕ → ℕ → String → Bool
within low high t = leb low (count t) && leb (count t) high

-- TENANT_ID_REGEX, `^[a-zA-Z0-9_-]{3,36}$`
unfoldable pub is_tenant_id : String → Bool
unfolding every_char
is_tenant_id t = within 3 36 t && every_char is_id_char t

-- SAFE_IDENTIFIER_REGEX, `^[a-zA-Z0-9_]{1,63}$`
unfoldable pub is_safe_identifier : String → Bool
unfolding every_char
is_safe_identifier t = within 1 63 t && every_char is_word t
