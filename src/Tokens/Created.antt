-- ===== src/Tokens/Created.antt =====
-- create_access_token of src/boveda/auth.py, with its header and the base64url of Tokens.Base64. A
-- token is its three parts: base64url has no dot, so that Python's split finds them again. A text is
-- the list of its code points. base64, JSON and the signature are parameters.
use boveda_pyme.Prelude.{
  ℕ, ◌≤◌, ◌≡◌, refl, Bool, true, false, Option, some, List, [], ◌∷◌, arith, ltb, ok,
}
use boveda_pyme.Tokens.{TokenClaims, JwtHeader, verify_access_token, check_claims}
use boveda_pyme.Tokens.Base64.{IsBase64, b64url_encode, b64url_decode, b64url_decode-encode}

-- `header`
abbrev pub jwt_header : JwtHeader
jwt_header = record { alg = some "EdDSA"; typ = some "JWT" }

module _ (urlsafe_b64encode : List ℕ → List ℕ) (dump_header : JwtHeader → List ℕ)
    (dump_claims : TokenClaims → List ℕ) (sign : List ℕ → List ℕ → List ℕ) where
  unfoldable pub create_access_token : TokenClaims → List (List ℕ)
  create_access_token claims =
      let header_b64 = b64url_encode urlsafe_b64encode (dump_header jwt_header) in
      let payload_b64 = b64url_encode urlsafe_b64encode (dump_claims claims) in
      let signature_b64 = b64url_encode urlsafe_b64encode (sign header_b64 payload_b64) in
      header_b64 ∷ payload_b64 ∷ signature_b64 ∷ []

  module _ (urlsafe_b64decode : List ℕ → Option (List ℕ)) (load_header : List ℕ → Option JwtHeader)
      (is_signed : List ℕ → List ℕ → List ℕ → Bool)
      (load_claims : List ℕ → Option TokenClaims) where
    -- Provided that base64 can be undone and pads as documented, that JSON gives back the header of
    -- EdDSA and the claims that it wrote, and that what was signed is accepted as signed: a token that
    -- was created for claims of this service, and has not expired, is accepted and gives these claims.
    pub verify-create_access_token :
        (now : ℕ) (claims : TokenClaims)
        → IsBase64 urlsafe_b64encode urlsafe_b64decode
        → load_header (dump_header (record { alg = some "EdDSA"; typ = some "JWT" }))
          ≡ some (record { alg = some "EdDSA"; typ = some "JWT" })
        → load_claims (dump_claims claims) ≡ some claims
        → ((h p : List ℕ) → is_signed (sign h p) h p ≡ true)
        → now ≤ claims.exp
        → claims.iss ≡ "boveda-pyme:auth"
        → claims.aud ≡ "boveda-pyme:api"
        → verify_access_token
            (b64url_decode urlsafe_b64decode)
            load_header
            is_signed
            load_claims
            now
            (create_access_token claims)
          ≡ ok claims
    unfolding create_access_token verify_access_token check_claims
    verify-create_access_token now claims b lh lc v e i a =
        let undone =
          λ (raw : List ℕ). b64url_decode-encode urlsafe_b64encode urlsafe_b64decode raw b in
        let live : ltb claims.exp now ≡ false = ground arith in
        let header_b64 = b64url_encode urlsafe_b64encode (dump_header jwt_header) in
        let payload_b64 = b64url_encode urlsafe_b64encode (dump_claims claims) in
        rw
          (
            undone (dump_header jwt_header),
            undone (sign header_b64 payload_b64),
            undone (dump_claims claims),
            lh,
            v header_b64 payload_b64,
            lc,
            live,
            i,
            a,
          )
          refl
