-- ===== src/Cli/Rotate.antt =====
-- `rotate-kek` of src/boveda/cli.py: the snapshots, and the salt in the table of settings.
pub mod Restorable
use boveda_pyme.Prelude.{ℕ, String, Option, none, some, List}
use boveda_pyme.Catalog.{Snapshot, update_where}
use boveda_pyme.Pipeline.{Encrypt}
use boveda_pyme.Restore.{Decrypt}
use boveda_pyme.Rotation.{rotate_kek}
use boveda_pyme.Cli.{
  Catalogue, Setting, Echo, no_salt, rotated, rotation_error, has_clave, setting_of,
}

module _ (derive_kek : String → String → List ℕ) (encrypt : Encrypt) (decrypt : Decrypt)
    (utf8 : String → List ℕ) where
  abbrev pub set_salt : String → List Setting → List Setting
  set_salt salt cs = update_where (has_clave "master_salt") (λ c. record c { valor = salt }) cs

  abbrev pub settle_rotation : String → Catalogue → Option (ℕ × List Snapshot) → Echo × Catalogue
  settle_rotation new_salt c none = (rotation_error, c)
  settle_rotation new_salt c (some (n, ss)) = (
    rotated n,
    record {
      world = record c.world { db = record c.world.db { snapshots = ss } };
      configuracion = set_salt new_salt c.configuracion;
    },
  )

  -- `rotate-kek`
  unfoldable pub rotate_kek_command :
      (String → List ℕ) → String → String → String → Catalogue → Echo × Catalogue
  rotate_kek_command new_nonce old_passphrase new_passphrase new_salt c =
      elim (setting_of "master_salt" c.configuracion) as (λ _. Echo × Catalogue) [
        | none ↦ (no_salt, c)
        | some salt ↦ settle_rotation new_salt c (
            rotate_kek encrypt decrypt utf8 new_nonce (derive_kek old_passphrase salt.valor)
              (derive_kek new_passphrase new_salt) c.world.db.snapshots)
      ]
