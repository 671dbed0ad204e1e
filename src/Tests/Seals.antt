-- ===== src/Tests/Seals.antt =====
-- Witnesses for headers, nonces, backup and restore, and the rotation of the key.
use boveda_pyme.Prelude.{ℕ, ◌≡◌, refl, not, some, List, [], ◌∷◌, map, arith, length, select, ok}
use boveda_pyme.Catalog.{Snapshot}
use boveda_pyme.Tests.Samples.{sample_generator, plain_encrypt, plain_decrypt, sealed_snapshot}
use boveda_pyme.Header.{create_chunk_header, parse_chunk_header}
use boveda_pyme.Header.RoundTrip.{parse-create, issue, AreDistinct, issue-AreDistinct}
use boveda_pyme.Restore.{unwrap_dek}
use boveda_pyme.Rotation.{rotate_kek, is_rotated}
use boveda_pyme.Rotation.Rewrapped.{rotate_kek_lem}

abbrev sample_nonce : List ℕ
sample_nonce = 1 ∷ 2 ∷ 3 ∷ 4 ∷ 0 ∷ 0 ∷ 0 ∷ 0 ∷ 0 ∷ 0 ∷ 0 ∷ 7 ∷ []

parse-create_example :
    (header : List ℕ) × (create_chunk_header 300 sample_nonce 66000 ≡ ok header)
    × (length header ≡ 26)
    × (parse_chunk_header header ≡ ok (300, sample_nonce, 66000))
parse-create_example = parse-create 300 sample_nonce 66000 (omega arith) (omega arith) refl

issue-AreDistinct_example : AreDistinct (issue 3 sample_generator)
issue-AreDistinct_example = issue-AreDistinct 3 sample_generator

rotate_kek_lem_example :
    let ss = sealed_snapshot ∷ [] in
    (n : ℕ) × (ss' : List Snapshot) × (rotate_kek plain_encrypt plain_decrypt
        (λ i. [])
        (λ i. [])
        (7 ∷ [])
        (6 ∷ [])
        ss
      ≡ some (n, ss'))
    × (n ≡ length (select is_rotated ss))
    × (map (unwrap_dek plain_decrypt (λ i. []) (6 ∷ [])) (select is_rotated ss')
        ≡ map (unwrap_dek plain_decrypt (λ i. []) (7 ∷ [])) (select is_rotated ss))
    × (select (λ s. not (is_rotated s)) ss' ≡ select (λ s. not (is_rotated s)) ss)
unfolding unwrap_dek
rotate_kek_lem_example =
    rotate_kek_lem plain_encrypt plain_decrypt (λ i. []) (λ i. []) (λ k n p a. refl) (7 ∷ [])
      (6 ∷ []) (sealed_snapshot ∷ []) (λ e. refl, tt)
