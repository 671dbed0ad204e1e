-- ===== src/Storage.antt =====
-- delete_objects_s3 of src/boveda/storage.py: the keys go to the bucket in calls of 1000. The call
-- (`delete_batch`) is boto3's; each run is one attempt of those that tenacity makes.
use boveda_pyme.Prelude.{
  ℕ, zero, suc, ◌≤◌, ◌≡◌, ◌⊎◌, inl, inr, refl, String, Bool, true, false, ◌||◌, none, List, [], ◌∷◌,
  ◌++◌, str_eq, if◌then◌else◌, length, take, drop, some_of, arith, take-append-drop, length-take,
  length-drop, Bool-cases, ap, ◌∙◌, sym,
}
use boveda_pyme.Purge.{ObjectStore, DeleteObjects}

abbrev pub is_key : String → List String → Bool
is_key k ks = some_of (str_eq k) ks

abbrev pub max_keys : ℕ
max_keys = 1000

module _ (delete_batch : DeleteObjects) where
  -- `for i in range(0, len(keys), 1000)`, with the fuel of a round for each key.
  unfoldable pub delete_loop : ℕ → List String → ObjectStore → Bool × ObjectStore
  delete_loop zero keys s3 = (true, s3)
  delete_loop (suc fuel) [] s3 = (true, s3)
  delete_loop (suc fuel) (k ∷ keys) s3 =
      let (done, s3') = delete_batch (take max_keys (k ∷ keys)) s3 in
      let rest = delete_loop fuel (drop max_keys (k ∷ keys)) s3' in
      if done then rest else (false, s3')

  unfoldable pub delete_objects_s3 : List String → ObjectStore → Bool × ObjectStore
  unfolding delete_loop
  delete_objects_s3 keys s3 = delete_loop (length keys) keys s3

-- What the bucket documents of a call with at most 1000 keys: it leaves the other objects alone, and if
-- it does not raise, its keys are gone but for those that its answer lists under Errors. The program
-- does not read the answer; `denied` holds the keys that the bucket refuses to delete.
pub record DeletesBatch (delete_batch : DeleteObjects) (denied : String → Bool) : Type 0 where
  pub spares :
      (ks : List String) (s3 : ObjectStore) (k : String)
      → length ks ≤ max_keys
      → is_key k ks ≡ false
      → (delete_batch ks s3).1 k ≡ s3 k
  pub deletes :
      (ks : List String) (s3 : ObjectStore) (k : String)
      → length ks ≤ max_keys
      → (delete_batch ks s3).0 ≡ true
      → is_key k ks ≡ true
      → denied k ≡ false
      → (delete_batch ks s3).1 k ≡ none

is_key-append :
    (k : String) (ks js : List String) → is_key k (ks ++ js) ≡ (is_key k ks || is_key k js)
is_key-append k [] js = refl
is_key-append k (i ∷ ks) js = ground (arith, is_key-append k ks js)

is_key-split :
    (k : String) (ks : List String)
    → is_key k ks ≡ (is_key k (take max_keys ks) || is_key k (drop max_keys ks))
is_key-split k ks =
    ap (is_key k) (sym (take-append-drop max_keys ks))
    ∙ is_key-append k (take max_keys ks) (drop max_keys ks)

neither : (a b c : Bool) → c ≡ (a || b) → c ≡ false → (a ≡ false) × (b ≡ false)
neither a b c e h = ground arith

the_first : (a b c : Bool) → c ≡ (a || b) → c ≡ true → b ≡ false → a ≡ true
the_first a b c e h n = ground arith

delete_loop-spares :
    (delete_batch : DeleteObjects) (denied : String → Bool) (fuel : ℕ) (ks : List String)
    (s3 : ObjectStore) (k : String)
    → DeletesBatch delete_batch denied
    → is_key k ks ≡ false
    → (delete_loop delete_batch fuel ks s3).1 k ≡ s3 k
unfolding delete_loop
delete_loop-spares delete_batch denied zero ks s3 k d h = refl
delete_loop-spares delete_batch denied (suc fuel) [] s3 k d h = refl
delete_loop-spares delete_batch denied (suc fuel) (j ∷ ks) s3 k d h =
    let size : length (take max_keys (j ∷ ks)) ≤ max_keys =
      omega (arith, length-take max_keys (j ∷ ks)) in
    let (now, later) = neither _ _ _ (is_key-split k (j ∷ ks)) h in
    let first = d.spares (take max_keys (j ∷ ks)) s3 k size now in
    elim (Bool-cases (delete_batch (take max_keys (j ∷ ks)) s3).0) [
      | inl e ↦
          rw e (
            delete_loop-spares delete_batch denied fuel (drop max_keys (j ∷ ks)) _ k d later
            ∙ first)
      | inr e ↦ rw e first
    ]

delete_loop-deletes :
    (delete_batch : DeleteObjects) (denied : String → Bool) (fuel : ℕ) (ks : List String)
    (s3 : ObjectStore) (k : String)
    → DeletesBatch delete_batch denied
    → length ks ≤ fuel
    → (delete_loop delete_batch fuel ks s3).0 ≡ true
    → is_key k ks ≡ true
    → denied k ≡ false
    → (delete_loop delete_batch fuel ks s3).1 k ≡ none
unfolding delete_loop
delete_loop-deletes delete_batch denied fuel [] s3 k d b done h nd = absurd (cc)
delete_loop-deletes delete_batch denied zero (j ∷ ks) s3 k d b done h nd = absurd (omega arith)
delete_loop-deletes delete_batch denied (suc fuel) (j ∷ ks) s3 k d b done h nd =
    let parts = is_key-split k (j ∷ ks) in
    let size : length (take max_keys (j ∷ ks)) ≤ max_keys =
      omega (arith, length-take max_keys (j ∷ ks)) in
    let fewer : length (drop max_keys (j ∷ ks)) ≤ fuel =
      omega (arith, length-drop max_keys (j ∷ ks)) in
    elim (Bool-cases (delete_batch (take max_keys (j ∷ ks)) s3).0) [
      | inl e ↦ rw e (elim (Bool-cases (is_key k (drop max_keys (j ∷ ks)))) [
        | inl later ↦
            delete_loop-deletes delete_batch denied fuel (drop max_keys (j ∷ ks)) _ k d fewer
              (rw e at done) later nd
        | inr gone ↦
            delete_loop-spares delete_batch denied fuel (drop max_keys (j ∷ ks)) _ k d gone
            ∙ d.deletes (take max_keys (j ∷ ks)) s3 k size e (the_first _ _ _ parts h gone) nd
      ])
      | inr e ↦ absurd (cc (rw e at done))
    ]

-- Provided that a call of at most 1000 keys leaves other objects alone, and removes its keys when it
-- does not raise, but for those that the bucket denies: a deletion of any number of keys leaves other
-- objects alone, whether it returns or raises, and when it returns each of its keys is gone that the
-- bucket does not deny.
pub delete_objects_s3_lem :
    (delete_batch : DeleteObjects) (denied : String → Bool) (ks : List String) (s3 : ObjectStore)
    (k : String)
    → DeletesBatch delete_batch denied
    → let (done, s3') = delete_objects_s3 delete_batch ks s3 in
      ((is_key k ks ≡ true) ⊎ (s3' k ≡ s3 k))
      × ((done ≡ false) ⊎ ((is_key k ks ≡ false) ⊎ ((denied k ≡ true) ⊎ (s3' k ≡ none))))
unfolding delete_objects_s3
delete_objects_s3_lem delete_batch denied ks s3 k d = (
  elim (Bool-cases (is_key k ks)) [
    | inl h ↦ inl h
    | inr h ↦ inr (delete_loop-spares delete_batch denied (length ks) ks s3 k d h)
  ],
  elim (Bool-cases (delete_loop delete_batch (length ks) ks s3).0) [
    | inl done ↦ elim (Bool-cases (is_key k ks)) [
      | inl h ↦ elim (Bool-cases (denied k)) [
        | inl refused ↦ inr (inr (inl refused))
        | inr allowed ↦ inr (
            inr (
              inr (
                delete_loop-deletes delete_batch denied (length ks) ks s3 k d (omega arith) done h
                  allowed)))
      ]
      | inr h ↦ inr (inl h)
    ]
    | inr raised ↦ inl raised
  ],
)
