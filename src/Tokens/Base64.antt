-- ===== src/Tokens/Base64.antt =====
-- _b64url_encode and _b64url_decode of src/boveda/auth.py. A text is the list of its code points.
-- urlsafe_b64encode and urlsafe_b64decode are parameters.
use boveda_pyme.Prelude.{
  ℕ, zero, suc, ◌+◌, ◌-◌, ◌%◌, ◌≤◌, ◌≡◌, refl, ap, ◌∙◌, sym, true, false, ◌&&◌, Option, some, List,
  [], ◌∷◌, ◌++◌, arith, length, append-nil, if◌then◌else◌, ◌==◌, All,
}
use boveda_pyme.Purge.{is_empty}

abbrev pub pads : ℕ → List ℕ
pads zero = []
pads (suc k) = b'=' ∷ pads k

-- `rstrip(b"=")`
unfoldable pub rstrip : List ℕ → List ℕ
rstrip [] = []
rstrip (c ∷ cs) = let rest = rstrip cs in if is_empty rest && (c == b'=') then [] else c ∷ rest

-- The padding that the decoder puts back.
unfoldable pub pad : List ℕ → List ℕ
pad t = let padding = 4 - length t % 4 in if padding == 4 then t else t ++ pads padding

-- What the program relies on of base64: it can be undone, and a text is characters without "=" and
-- at most two of them, to a multiple of four.
pub record IsBase64 (urlsafe_b64encode : List ℕ → List ℕ)
    (urlsafe_b64decode : List ℕ → Option (List ℕ)) : Type 0 where
  pub undone : (raw : List ℕ) → urlsafe_b64decode (urlsafe_b64encode raw) ≡ some raw
  pub padded :
      (raw : List ℕ)
      → (core : List ℕ) × (k : ℕ) × (urlsafe_b64encode raw ≡ core ++ pads k)
        × All (λ c. (c == b'=') ≡ false) core
        × (k ≤ 2)
        × ((length core + k) % 4 ≡ 0)

module _ (urlsafe_b64encode : List ℕ → List ℕ) where
  unfoldable pub b64url_encode : List ℕ → List ℕ
  unfolding rstrip
  b64url_encode raw = rstrip (urlsafe_b64encode raw)

module _ (urlsafe_b64decode : List ℕ → Option (List ℕ)) where
  unfoldable pub b64url_decode : List ℕ → Option (List ℕ)
  unfolding pad
  b64url_decode t = urlsafe_b64decode (pad t)

rstrip-pads : (k : ℕ) → rstrip (pads k) ≡ []
unfolding rstrip
rstrip-pads zero = refl
rstrip-pads (suc k) = rw (rstrip-pads k) refl

rstrip-append :
    (core : List ℕ) (k : ℕ) → All (λ c. (c == b'=') ≡ false) core → rstrip (core ++ pads k) ≡ core
unfolding rstrip
rstrip-append [] k a = rstrip-pads k
rstrip-append (c ∷ core) k a = ground (arith, a.0, rstrip-append core k a.1)

pad_lem : (core : List ℕ) (k : ℕ) → k ≤ 2 → (length core + k) % 4 ≡ 0 → pad core ≡ core ++ pads k
unfolding pad
pad_lem core zero low whole =
    let none_left : (4 - length core % 4 == 4) ≡ true = ground arith in
    rw none_left (sym (append-nil core))
pad_lem core (suc k) low whole =
    let left : 4 - length core % 4 ≡ suc k = omega arith in
    let some_left : (4 - length core % 4 == 4) ≡ false = ground arith in
    rw some_left (ap (λ m. core ++ pads m) left)

-- The padding that is stripped is put back, so that what was encoded is decoded.
pub b64url_decode-encode :
    (urlsafe_b64encode : List ℕ → List ℕ) (urlsafe_b64decode : List ℕ → Option (List ℕ))
    (raw : List ℕ)
    → IsBase64 urlsafe_b64encode urlsafe_b64decode
    → b64url_decode urlsafe_b64decode (b64url_encode urlsafe_b64encode raw) ≡ some raw
unfolding b64url_encode b64url_decode
b64url_decode-encode urlsafe_b64encode urlsafe_b64decode raw b =
    let (core, k, text, plain, low, whole) = b.padded raw in
    ap (λ t. urlsafe_b64decode (pad t)) (ap rstrip text ∙ rstrip-append core k plain)
    ∙ ap urlsafe_b64decode (pad_lem core k low whole ∙ sym text)
    ∙ b.undone raw
