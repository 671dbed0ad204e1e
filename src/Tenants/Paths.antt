-- ===== src/Tenants/Paths.antt =====
-- The paths of the catalogues of tenants whose ids are valid (src/boveda/database.py).
use Prim.Native.Char.{code}
use text.Mathlib.TextLemmas.{append_cancel_left, append_cancel_right}
use boveda_pyme.Prelude.{
  String, ◌≡◌, ◌≢◌, refl, ap, Bool, true, arith, ok, ◌&&◌, str_eq, eq_iff, false,
}
use boveda_pyme.Tenants.{
  is_id_char, sanitize, every_char, db_path, get_tenant_db_path, is_tenant_id, within,
}

and_left : (a b : Bool) → (a && b) ≡ true → a ≡ true
and_left a b h = ground arith

and_right : (a b : Bool) → (a && b) ≡ true → b ≡ true
and_right a b h = ground arith

sanitize-every_char : (t : String) → every_char is_id_char t ≡ true → sanitize t ≡ t
unfolding sanitize every_char
sanitize-every_char String.[] h = refl
sanitize-every_char (String.◌∷◌ c s) h =
    let first : is_id_char (code c) ≡ true =
      and_left (is_id_char (code c)) (every_char is_id_char s) h in
    let rest = and_right (is_id_char (code c)) (every_char is_id_char s) h in
    rw first (ap (λ x. String.◌∷◌ c x) (sanitize-every_char s rest))

db_path-injective : (base_dir i j : String) → db_path base_dir i ≡ db_path base_dir j → i ≡ j
db_path-injective base_dir i j e =
    append_cancel_right i j "/snapshots.db"
      (append_cancel_left "/" _ _ (append_cancel_left base_dir _ _ e))

pub str_ne : (s t : String) → s ≢ t → str_eq s t ≡ false
str_ne s t ne = ground (arith, eq_iff s t)

-- A tenant id that the validator accepts is its own directory's name.
pub get_tenant_db_path-is_tenant_id :
    (base_dir t : String)
    → is_tenant_id t ≡ true
    → get_tenant_db_path base_dir t ≡ ok (db_path base_dir t)
unfolding get_tenant_db_path is_tenant_id every_char
get_tenant_db_path-is_tenant_id base_dir t h =
    let filled : t ≢ "" = λ e. cc (rw e at h) in
    let full = str_ne t "" filled in
    let same = sanitize-every_char t (and_right (within 3 36 t) (every_char is_id_char t) h) in
    rw (same, full) refl

pub db_path_ne : (base_dir t u : String) → t ≢ u → db_path base_dir t ≢ db_path base_dir u
db_path_ne base_dir t u ne e = ne (db_path-injective base_dir t u e)
