-- ===== src/Tokens.antt =====
-- verify_access_token of src/boveda/auth.py. A part of a token is a text of any type; the parts of the token come from Python's split; base64,
-- JSON, pydantic and Ed25519 are parameters, the last as whether the signature is valid.
pub mod Accepted
pub mod Base64
pub mod Created
use boveda_pyme.Prelude.{
  ℕ, String, Bool, false, not, ◌||◌, Option, none, some, List, [], ◌∷◌, str_eq, ltb, ◌>>=◌, ◌>>◌,
  raise_if, Result, ok, err,
}

pub record TokenClaims : Type 0 where
  pub iss : String
  pub sub : String
  pub aud : String
  pub tenant_id : String
  pub role : String
  pub exp : ℕ
  pub iat : ℕ
  pub jti : String

pub data TokenAuthError : Type 0 where
  malformed bad_base64 bad_header wrong_algorithm bad_signature bad_claims expired_token
        untrusted_issuer wrong_audience :
      TokenAuthError

-- What json.loads gives of `alg` and `typ`.
pub record JwtHeader : Type 0 where
  pub alg : Option String
  pub typ : Option String

abbrev pub or_raise : {A : Type 0} → TokenAuthError → Option A → Result TokenAuthError A
or_raise e none = err e
or_raise e (some a) = ok a

abbrev pub is_text : String → Option String → Bool
is_text t none = false
is_text t (some u) = str_eq u t

abbrev pub three_parts : {Text : Type 0} → List Text → Option (Text × Text × Text)
three_parts (a ∷ b ∷ c ∷ []) = some (a, b, c)
three_parts _ = none

module _ {Text : Type 0} (decode : Text → Option (List ℕ)) (load_header : List ℕ → Option JwtHeader)
    (is_signed : List ℕ → Text → Text → Bool) (load_claims : List ℕ → Option TokenClaims) where
  -- The last checks, at the time `now`.
  unfoldable pub check_claims : ℕ → TokenClaims → Result TokenAuthError TokenClaims
  check_claims now claims = do
    raise_if (ltb claims.exp now) expired_token
    raise_if (not (str_eq claims.iss "boveda-pyme:auth")) untrusted_issuer
    raise_if (not (str_eq claims.aud "boveda-pyme:api")) wrong_audience
    ok claims

  unfoldable pub verify_access_token : ℕ → List Text → Result TokenAuthError TokenClaims
  unfolding check_claims
  verify_access_token now token_parts = do
    (header_b64, payload_b64, signature_b64) ← or_raise malformed (three_parts token_parts)
    header_bytes ← or_raise bad_base64 (decode header_b64)
    signature ← or_raise bad_base64 (decode signature_b64)
    payload_bytes ← or_raise bad_base64 (decode payload_b64)
    header ← or_raise bad_header (load_header header_bytes)
    raise_if (not (is_text "EdDSA" header.alg) || not (is_text "JWT" header.typ)) wrong_algorithm
    raise_if (not (is_signed signature header_b64 payload_b64)) bad_signature
    claims ← or_raise bad_claims (load_claims payload_bytes)
    check_claims now claims
