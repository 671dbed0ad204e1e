-- ===== src/Schemas/Contained.antt =====
-- `PathContainmentValidator` of src/boveda/schemas.py. A path is the list of its parts, as pathlib
-- compares them; `resolve`, which follows the links of the file system, is a parameter.
use text.Mathlib.TextPositions.{eq_refl}
use boveda_pyme.Prelude.{
  ◌↔◌, ap, arith, String, ◌≡◌, refl, sym, ◌∙◌, Option, none, some, Result, ok, err, List, [], ◌∷◌,
  ◌++◌, str_eq, eq_iff, Bool-cases, Option-cases, inl, inr, if◌then◌else◌,
}

pub data ContainmentError : Type 0 where
  path_traversal : ContainmentError

-- `Path.relative_to`: none is its ValueError.
unfoldable pub relative_to : List String → List String → Option (List String)
relative_to target [] = some target
relative_to [] (b ∷ base) = none
relative_to (t ∷ target) (b ∷ base) =
    let rest = relative_to target base in if str_eq t b then rest else none

abbrev pub confined : List String → Option (List String) → Result ContainmentError (List String)
confined target none = err path_traversal
confined target (some rest) = ok target

relative_to_lem :
    (target base rest : List String) → relative_to target base ≡ some rest → target ≡ base ++ rest
unfolding relative_to
relative_to_lem target [] rest e = grind arith
relative_to_lem [] (b ∷ base) rest e = grind arith
relative_to_lem (t ∷ target) (b ∷ base) rest e = elim (Bool-cases (str_eq t b)) [
  | inl y ↦ let ih = relative_to_lem target base rest in grind (arith, eq_iff t b, ih)
  | inr n ↦ grind arith
]

relative_to-append : (base rest : List String) → relative_to (base ++ rest) base ≡ some rest
unfolding relative_to
relative_to-append [] rest = refl
relative_to-append (b ∷ base) rest = rw (eq_refl b) (relative_to-append base rest)

module _ (resolve : List String → List String) where
  -- `ensure_confined_path`
  unfoldable pub ensure_confined_path :
      List String → List String → Result ContainmentError (List String)
  ensure_confined_path target_path allowed_base_dir =
      let resolved_base = resolve allowed_base_dir in
      let resolved_target = resolve target_path in
      confined resolved_target (relative_to resolved_target resolved_base)

  confined_below :
      (target_path allowed_base_dir resolved : List String)
      → ensure_confined_path target_path allowed_base_dir ≡ ok resolved
      → (resolved ≡ resolve target_path)
        × ((rest : List String) × (resolved ≡ resolve allowed_base_dir ++ rest))
  unfolding ensure_confined_path
  confined_below target_path allowed_base_dir resolved e =
      elim (Option-cases (relative_to (resolve target_path) (resolve allowed_base_dir))) [
        | inl n ↦ absurd (grind arith)
        | inr (rest, y) ↦
            let same : resolve target_path ≡ resolved = grind arith in
            (
              sym same,
              (
                rest,
                sym same ∙ relative_to_lem (resolve target_path) (resolve allowed_base_dir) rest y,
              ),
            )
      ]

  -- A path is admitted exactly if the resolved target lies below the resolved directory, and what is
  -- returned is the resolved target.
  pub ensure_confined_path_iff :
      (target_path allowed_base_dir resolved : List String)
      → (ensure_confined_path target_path allowed_base_dir ≡ ok resolved) ↔ (
          (resolved ≡ resolve target_path)
          × ((rest : List String) × (resolved ≡ resolve allowed_base_dir ++ rest)))
  unfolding ensure_confined_path
  ensure_confined_path_iff target_path allowed_base_dir resolved = (
    confined_below target_path allowed_base_dir resolved,
    (λ (same, (rest, below)).
        let there = sym same ∙ below in
        rw there (rw (relative_to-append (resolve allowed_base_dir) rest) (ap ok (sym below)))),
  )
