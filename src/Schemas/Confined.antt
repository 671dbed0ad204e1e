-- ===== src/Schemas/Confined.antt =====
-- Where the file names that src/boveda/schemas.py accepts lead.
use boveda_pyme.Prelude.{
  ℕ, ◌≡◌, refl, sym, ◌∙◌, Bool, true, false, some, List, [], ◌∷◌, ◌++◌, append_assoc, arith,
  if◌then◌else◌, some_of, Bool-cases, ◌==◌, none, ◌||◌, inl, inr,
}
use boveda_pyme.Schemas.{is_up, parts_of, validate_destination_file}

-- One step of a walk from a directory, the names on the way to it with the last one first.
abbrev pub up : List (List ℕ) → List (List ℕ)
up [] = []
up (d ∷ ds) = ds

abbrev pub is_here : List ℕ → Bool
is_here [] = true
is_here (a ∷ []) = a == b'.'
is_here _ = false

abbrev pub step : List (List ℕ) → List ℕ → List (List ℕ)
step at_dir part =
    if is_up part then up at_dir else (if is_here part then at_dir else part ∷ at_dir)

abbrev pub walk : List (List ℕ) → List (List ℕ) → List (List ℕ)
walk at_dir [] = at_dir
walk at_dir (part ∷ parts) = walk (step at_dir part) parts

neither : (a b : Bool) → (a || b) ≡ false → (a ≡ false) × (b ≡ false)
neither a b h = ground arith

if_none :
    {A : Type 0} (b : Bool) {a w : A}
    → (if b then none else some a) ≡ some w
    → (b ≡ false) × (w ≡ a)
if_none true h = cc
if_none false h = (refl, cc)

walk_below :
    (parts at_dir : List (List ℕ))
    → some_of is_up parts ≡ false
    → (below : List (List ℕ)) × (walk at_dir parts ≡ below ++ at_dir)
walk_below [] at_dir h = ([], refl)
walk_below (part ∷ parts) at_dir h =
    let (here, later) = neither (is_up part) (some_of is_up parts) h in
    elim (Bool-cases (is_here part)) [
      | inl e ↦ rw (here, e) (walk_below parts at_dir later)
      | inr e ↦
          (let (below, w) = walk_below parts (part ∷ at_dir) later in
            rw (here, e) (below ++ part ∷ [], w ∙ sym (append_assoc below (part ∷ []) at_dir)))
    ]

-- The walk along the parts of an accepted file name, from any directory, ends below the directory.
pub validate_destination_file-below :
    (v w : List ℕ) (base : List (List ℕ))
    → validate_destination_file v ≡ some w
    → (w ≡ v) × ((below : List (List ℕ)) × (walk base (parts_of v) ≡ below ++ base))
unfolding validate_destination_file
validate_destination_file-below v w base h =
    let (clean, same) = if_none (some_of (λ c. c == 0) v || some_of is_up (parts_of v)) h in
    (same, walk_below (parts_of v) base (neither (some_of (λ c. c == 0) v) _ clean).1)
