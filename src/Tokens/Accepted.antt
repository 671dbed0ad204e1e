-- ===== src/Tokens/Accepted.antt =====
-- Which tokens src/boveda/auth.py accepts.
use boveda_pyme.Prelude.{
  ℕ, ◌≤◌, ◌≡◌, ap, ◌∙◌, subst, Bool, true, not, ◌||◌, Option, none, some, List, [], ◌∷◌, arith,
  str_eq, eq_iff, ltb, raise_if-eq-ok, ok-injective, >>=-eq-ok, ok,
}
use boveda_pyme.Tokens.{
  malformed, bad_base64, bad_header, wrong_algorithm, bad_signature, bad_claims, expired_token,
  untrusted_issuer, wrong_audience, TokenClaims, TokenAuthError, JwtHeader, or_raise, is_text,
  three_parts, check_claims, verify_access_token,
}

or_raise-eq-ok :
    {A : Type 0} (e : TokenAuthError) (o : Option A) {a : A} → or_raise e o ≡ ok a → o ≡ some a
or_raise-eq-ok e none h = cc
or_raise-eq-ok e (some a) h = ap some (ok-injective h)

three_parts-eq-some :
    {Text : Type 0} (ts : List Text) {p : Text × Text × Text}
    → three_parts ts ≡ some p
    → ts ≡ p.0 ∷ p.1 ∷ p.2 ∷ []
three_parts-eq-some [] h = cc
three_parts-eq-some (a ∷ []) h = cc
three_parts-eq-some (a ∷ b ∷ []) h = cc
three_parts-eq-some {Text} (a ∷ b ∷ c ∷ []) {p} h =
    ap (λ o. elim o as (λ _. List Text) [ some q ↦ q.0 ∷ q.1 ∷ q.2 ∷ [] | none ↦ [] ]) h
three_parts-eq-some (a ∷ b ∷ c ∷ d ∷ ts) h = cc

module _ {Text : Type 0} (decode : Text → Option (List ℕ)) (load_header : List ℕ → Option JwtHeader)
    (is_signed : List ℕ → Text → Text → Bool) (load_claims : List ℕ → Option TokenClaims) where
  -- A token that is accepted has three parts, its third is a valid signature of the other two, its
  -- second holds the claims that are returned, and these have not expired and name the issuer and
  -- the audience of the service.
  pub verify_access_token-eq-ok :
      (now : ℕ) (token_parts : List Text) {claims : TokenClaims}
      → verify_access_token decode load_header is_signed load_claims now token_parts ≡ ok claims
      → (p : Text × Text × Text) × (token_parts ≡ p.0 ∷ p.1 ∷ p.2 ∷ [])
        × ((signature : List ℕ) × (decode p.2 ≡ some signature)
            × (is_signed signature p.0 p.1 ≡ true))
        × ((payload : List ℕ) × (decode p.1 ≡ some payload) × (load_claims payload ≡ some claims))
        × (now ≤ claims.exp)
        × (claims.iss ≡ "boveda-pyme:auth")
        × (claims.aud ≡ "boveda-pyme:api")
  unfolding verify_access_token check_claims
  verify_access_token-eq-ok now token_parts {claims} h =
      let (p, e1, h1) = >>=-eq-ok (or_raise malformed (three_parts token_parts)) _ h in
      let (header_bytes, e2, h2) = >>=-eq-ok (or_raise bad_base64 (decode p.0)) _ h1 in
      let (signature, e3, h3) = >>=-eq-ok (or_raise bad_base64 (decode p.2)) _ h2 in
      let (payload, e4, h4) = >>=-eq-ok (or_raise bad_base64 (decode p.1)) _ h3 in
      let (header, e5, h5) = >>=-eq-ok (or_raise bad_header (load_header header_bytes)) _ h4 in
      let (e6, h6) =
        raise_if-eq-ok (not (is_text "EdDSA" header.alg) || not (is_text "JWT" header.typ))
          wrong_algorithm _ h5 in
      let (e7, h7) = raise_if-eq-ok (not (is_signed signature p.0 p.1)) bad_signature _ h6 in
      let (found, e8, h8) = >>=-eq-ok (or_raise bad_claims (load_claims payload)) _ h7 in
      let (e9, h9) = raise_if-eq-ok (ltb found.exp now) expired_token _ h8 in
      let (e10, h10) =
        raise_if-eq-ok (not (str_eq found.iss "boveda-pyme:auth")) untrusted_issuer _ h9 in
      let (e11, h11) =
        raise_if-eq-ok (not (str_eq found.aud "boveda-pyme:api")) wrong_audience _ h10 in
      let same : found ≡ claims = ok-injective h11 in
      (
        p,
        three_parts-eq-some token_parts (or_raise-eq-ok malformed (three_parts token_parts) e1),
        (signature, or_raise-eq-ok bad_base64 (decode p.2) e3, ground arith),
        (
          payload,
          or_raise-eq-ok bad_base64 (decode p.1) e4,
          or_raise-eq-ok bad_claims (load_claims payload) e8 ∙ ap some same,
        ),
        subst (λ c. now ≤ c.exp) same (ground arith),
        subst (λ c. c.iss ≡ "boveda-pyme:auth") same
            ((eq_iff found.iss "boveda-pyme:auth").0 (ground arith)),
        subst (λ c. c.aud ≡ "boveda-pyme:api") same
            ((eq_iff found.aud "boveda-pyme:api").0 (ground arith)),
      )
