-- ===== src/Tests/Access.antt =====
-- Witnesses for the state machine, the Merkle root, the tickets and the tokens.
use boveda_pyme.Prelude.{
  ℕ, ◌≤◌, String, ◌≡◌, refl, true, some, List, [], ◌∷◌, arith, str_eq, ok, err,
}
use boveda_pyme.Merkle.{compute_merkle_root}
use boveda_pyme.Merkle.Root.{compute_merkle_root_duplicated}
use boveda_pyme.Tickets.{
  TicketStore, unknown_ticket, create_ticket, consume_ticket, purge_front, evict, put_ticket,
}
use boveda_pyme.Tickets.Once.{consume_ticket-create_ticket}
use boveda_pyme.Tokens.{TokenClaims, verify_access_token, check_claims}
use boveda_pyme.Tokens.Accepted.{verify_access_token-eq-ok}

abbrev three_hashes : List (List ℕ)
three_hashes = (1 ∷ []) ∷ (2 ∷ []) ∷ (3 ∷ []) ∷ []

compute_merkle_root_duplicated_example :
    compute_merkle_root (λ b. b) three_hashes
    ≡ compute_merkle_root (λ b. b) ((1 ∷ []) ∷ (2 ∷ []) ∷ (3 ∷ []) ∷ (3 ∷ []) ∷ [])
compute_merkle_root_duplicated_example =
    compute_merkle_root_duplicated (λ b. b) (1 ∷ []) (2 ∷ []) [] (3 ∷ []) refl

-- A store of two places, full, with one ticket that has expired.
abbrev full_store : TicketStore ℕ
full_store = record {
  max_capacity = 2;
  tickets =
      record { id = "a"; claims = 1; expires_at = 5 }
      ∷ record { id = "b"; claims = 2; expires_at = 50 }
      ∷ [];
}

consume_ticket-create_ticket_example :
    let store' : TicketStore ℕ = record {
      max_capacity = 2;
      tickets =
          record { id = "b"; claims = 2; expires_at = 50 }
          ∷ record { id = "c"; claims = 3; expires_at = 40 }
          ∷ [];
    } in
    let (first, left) = consume_ticket 20 "c" store' in
    (first ≡ ok 3) × ((consume_ticket 21 "c" left).0 ≡ err unknown_ticket)
unfolding create_ticket purge_front evict put_ticket
consume_ticket-create_ticket_example =
    consume_ticket-create_ticket "c" 3 30 10 10 20 21 full_store refl (omega arith)

abbrev sample_claims : TokenClaims
sample_claims = record {
  iss = "boveda-pyme:auth";
  sub = "ana";
  aud = "boveda-pyme:api";
  tenant_id = "pyme";
  role = "Operator";
  exp = 100;
  iat = 10;
  jti = "j1";
}

verify_access_token-eq-ok_example :
    (p : String × String × String) × ("h" ∷ "p" ∷ "s" ∷ [] ≡ p.0 ∷ p.1 ∷ p.2 ∷ [])
    × ((signature : List ℕ) × (some (1 ∷ []) ≡ some signature) × (str_eq p.0 "h" ≡ true))
    × ((payload : List ℕ) × (some (1 ∷ []) ≡ some payload)
        × (some sample_claims ≡ some sample_claims))
    × (50 ≤ sample_claims.exp)
    × (sample_claims.iss ≡ "boveda-pyme:auth")
    × (sample_claims.aud ≡ "boveda-pyme:api")
unfolding verify_access_token check_claims
verify_access_token-eq-ok_example =
    verify_access_token-eq-ok (λ t. some (1 ∷ []))
      (λ b. some (record { alg = some "EdDSA"; typ = some "JWT" })) (λ s h p. str_eq h "h")
      (λ b. some sample_claims) 50 ("h" ∷ "p" ∷ "s" ∷ []) refl
