-- ===== src/Header/RoundTrip.antt =====
-- The header of src/boveda/crypto.py read back, and the nonces of one generator.
use boveda_pyme.Prelude.{
  ◌∙◌, ◌+◌, ℕ, zero, suc, ◌<◌, ◌≡◌, refl, ap, ◌≢◌, true, false, List, [], ◌∷◌, ◌++◌, arith, leb,
  ◌==◌, length, take, drop, length-append, All, ok, err, sym, Bool-cases, inl, inr,
}
use boveda_pyme.Header.{
  be16, be32, be64, from_be, text12, zeros, magic, create_chunk_header, parse_chunk_header,
  NonceGenerator, next,
}

pub take-append_all {ℓ} :
    {A : Type ℓ} (n : ℕ) (xs ys : List A) → length xs ≡ n → take n (xs ++ ys) ≡ xs
take-append_all zero [] ys h = refl
take-append_all zero (x ∷ xs) ys h = absurd (omega (arith, h))
take-append_all (suc n) [] ys h = absurd (omega (arith, h))
take-append_all (suc n) (x ∷ xs) ys h = ap (◌∷◌ x) (take-append_all n xs ys (omega (arith, h)))

pub drop-append_all {ℓ} :
    {A : Type ℓ} (n : ℕ) (xs ys : List A) → length xs ≡ n → drop n (xs ++ ys) ≡ ys
drop-append_all zero [] ys h = refl
drop-append_all zero (x ∷ xs) ys h = absurd (omega (arith, h))
drop-append_all (suc n) [] ys h = absurd (omega (arith, h))
drop-append_all (suc n) (x ∷ xs) ys h = drop-append_all n xs ys (omega (arith, h))

from_be32 : (n : ℕ) → n < 4294967296 → from_be 0 (be32 n) ≡ n
from_be32 n h = omega arith

from_be64 : (n : ℕ) → n < 18446744073709551616 → from_be 0 (be64 n) ≡ n
from_be64 n h = omega arith

leb-false : (a b : ℕ) → b < a → leb a b ≡ false
leb-false a b h = ground arith

text12_lem : (nonce : List ℕ) → length nonce ≡ 12 → text12 nonce ≡ nonce
text12_lem nonce h = take-append_all 12 nonce (zeros 12) h

==-true : (a b : ℕ) → a ≡ b → (a == b) ≡ true
==-true a b h = ground arith

-- Provided that the sequence number and the length are below 2^32 and the nonce has 12 bytes, a
-- header is made, it has 26 bytes, and it is read back as what it was made of.
pub parse-create :
    (chunk_seq : ℕ) (nonce : List ℕ) (ciphertext_len : ℕ)
    → chunk_seq < 4294967296
    → ciphertext_len < 4294967296
    → length nonce ≡ 12
    → (header : List ℕ) × (create_chunk_header chunk_seq nonce ciphertext_len ≡ ok header)
      × (length header ≡ 26)
      × (parse_chunk_header header ≡ ok (chunk_seq, nonce, ciphertext_len))
unfolding create_chunk_header parse_chunk_header
parse-create chunk_seq nonce n hs hn hl = (
  magic ++ be16 1 ++ be32 chunk_seq ++ nonce ++ be32 n,
  rw (leb-false 4294967296 chunk_seq hs, leb-false 4294967296 n hn, text12_lem nonce hl) refl,
  size,
  rw
      (
        ==-true (length (magic ++ be16 1 ++ be32 chunk_seq ++ nonce ++ be32 n)) 26 size,
        take-append_all 12 nonce (be32 n) hl,
        drop-append_all 12 nonce (be32 n) hl,
        from_be32 chunk_seq hs,
        from_be32 n hn,
      )
      refl,
)
  where
    size : length (magic ++ be16 1 ++ be32 chunk_seq ++ nonce ++ be32 n) ≡ 26
    size = omega (arith, length-append nonce (be32 n), hl)

-- The nonces of up to n calls of `next`.
unfoldable pub issue : ℕ → NonceGenerator → List (List ℕ)
issue zero gen = []
issue (suc n) gen = elim (next gen) [ ok (nonce, gen') ↦ nonce ∷ issue n gen' | err e ↦ [] ]

-- No two members are equal.
abbrev pub AreDistinct {ℓ} : {A : Type ℓ} → List A → Type ℓ
AreDistinct [] = Unit
AreDistinct (x ∷ xs) = All (λ y. y ≢ x) xs × AreDistinct xs

be64-injective :
    (prefix : List ℕ) (a b : ℕ)
    → a < 18446744073709551616
    → b < 18446744073709551616
    → prefix ++ be64 a ≡ prefix ++ be64 b
    → a ≡ b
be64-injective prefix a b ha hb e =
    let n = length prefix in
    let bytes =
      sym (drop-append_all n prefix (be64 a) refl)
      ∙ ap (drop n) e
      ∙ drop-append_all n prefix (be64 b) refl in
    sym (from_be64 a ha) ∙ ap (from_be 0) bytes ∙ from_be64 b hb

issue_exhausted :
    (n : ℕ) (gen : NonceGenerator)
    → leb 18446744073709551616 gen.counter ≡ true
    → issue (suc n) gen ≡ []
unfolding issue next
issue_exhausted n gen e = rw (e, issue, next) refl

issue_another :
    (n : ℕ) (gen : NonceGenerator)
    → leb 18446744073709551616 gen.counter ≡ false
    → issue (suc n) gen
      ≡ (gen.prefix ++ be64 gen.counter) ∷ issue n (record gen { counter = gen.counter + 1 })
unfolding issue next
issue_another n gen e = rw (e, issue, next) refl

issue-≢ :
    (n k : ℕ) (gen : NonceGenerator)
    → k < gen.counter
    → k < 18446744073709551616
    → All (λ y. y ≢ gen.prefix ++ be64 k) (issue n gen)
unfolding issue next
issue-≢ zero k gen h b = tt
issue-≢ (suc n) k gen h b = elim (Bool-cases (leb 18446744073709551616 gen.counter)) [
  | inl e ↦ rw (issue_exhausted n gen e) tt
  | inr e ↦
      let there : (gen.prefix ++ be64 gen.counter) ≢ (gen.prefix ++ be64 k) = λ same.
        let equal = be64-injective gen.prefix gen.counter k (ground arith) b same in
        omega (arith, equal, h) in
      rw (issue_another n gen e)
        (there, issue-≢ n k (record gen { counter = gen.counter + 1 }) (omega (arith, h)) b)
]

-- The nonces of one generator are all distinct, however many are asked for.
pub issue-AreDistinct : (n : ℕ) (gen : NonceGenerator) → AreDistinct (issue n gen)
unfolding issue next
issue-AreDistinct zero gen = tt
issue-AreDistinct (suc n) gen = elim (Bool-cases (leb 18446744073709551616 gen.counter)) [
  | inl e ↦ rw (issue_exhausted n gen e) tt
  | inr e ↦
      let gen' = record gen { counter = gen.counter + 1 } in
      rw (issue_another n gen e)
        (issue-≢ n gen.counter gen' (omega arith) (ground arith), issue-AreDistinct n gen')
]
