-- ===== src/Redaction.antt =====
-- redact_pii_and_secrets of src/boveda/logging.py, over the entries of an event in their order. The
-- lower case of a text and the regular expression for connection strings, its search and its
-- substitution, are parameters.
use text.Mathlib.Text.{starts_with}
use boveda_pyme.Prelude.{
  String, ◌≡◌, ◌⊎◌, inl, inr, refl, ap, Bool, false, ◌||◌, List, [], ◌∷◌, map, if◌then◌else◌,
  some_of, All, Bool-cases, str_eq,
}

-- A value of an event: a text, or anything else.
pub data Value : Type 0 where
  str : String → Value
  other : Value

abbrev pub sensitive_keys : List String
sensitive_keys =
    "passphrase" ∷ "password" ∷ "token" ∷ "secret" ∷ "authorization" ∷ "dek" ∷ "kek" ∷ "master_salt"
    ∷ "encrypted_dek" ∷ []

-- `s in t`
unfoldable pub contains : String → String → Bool
contains s String.[] = str_eq s ""
contains s (String.◌∷◌ c t) = let rest = contains s t in starts_with (String.◌∷◌ c t) s || rest

module _ (lower : String → String) (search : String → Bool) (substitute : String → String) where
  abbrev pub is_sensitive : String → Bool
  is_sensitive key = some_of (λ s. contains s (lower key)) sensitive_keys

  abbrev pub redact_value : Value → Value
  redact_value other = other
  redact_value (str t) = if search t then str (substitute t) else str t

  abbrev pub redact_entry : String × Value → String × Value
  redact_entry (key, value) =
      (key, if is_sensitive key then str "[REDACTED]" else redact_value value)

  unfoldable pub redact_pii_and_secrets : List (String × Value) → List (String × Value)
  unfolding contains
  redact_pii_and_secrets event_dict = map redact_entry event_dict

  -- What an entry may still say: nothing under a key with a sensitive word, and otherwise no text
  -- that the expression finds but its substitution.
  abbrev pub IsRedacted : String × Value → Type 0
  IsRedacted (key, value) =
      (value ≡ str "[REDACTED]")
      ⊎ ((is_sensitive key ≡ false) × ((v : Value) × (value ≡ redact_value v)))

  redact_entry-IsRedacted : (e : String × Value) → IsRedacted (redact_entry e)
  redact_entry-IsRedacted (key, value) = elim (Bool-cases (is_sensitive key)) [
    | inl h ↦ inl (rw h refl)
    | inr h ↦ inr (h, (value, rw h refl))
  ]

  -- The keys of an event stay as they are, and each of its entries is redacted.
  pub redact_pii_and_secrets_lem :
      (event_dict : List (String × Value))
      → (map (λ e. e.0) (redact_pii_and_secrets event_dict) ≡ map (λ e. e.0) event_dict)
        × All IsRedacted (redact_pii_and_secrets event_dict)
  unfolding redact_pii_and_secrets
  redact_pii_and_secrets_lem [] = (refl, tt)
  redact_pii_and_secrets_lem (e ∷ es) =
      let (keys, rest) = redact_pii_and_secrets_lem es in
      (ap (◌∷◌ e.0) keys, (redact_entry-IsRedacted e, rest))
