-- ===== src/Header.antt =====
-- The chunk header and the nonce counter of src/boveda/crypto.py (NonceGenerator,
-- create_chunk_header, parse_chunk_header, create_chunk_header_v2, create_aad). Bytes are numbers;
-- struct.pack refuses a number that its field cannot hold, and cuts or fills a text of 12 bytes.
pub mod RoundTrip
use boveda_pyme.Prelude.{
  ℕ, zero, suc, ◌+◌, ◌-◌, ◌*◌, ◌/◌, ◌%◌, ◌^◌, ◌≤◌, ◌<◌, min, max, String, ◌≡◌, refl, sym, ap, ◌∙◌,
  subst, ◌≢◌, ◌↔◌, ◌⊎◌, inl, inr, Bool, true, false, not, ◌&&◌, ◌||◌, Option, none, some, List, [],
  ◌∷◌, ◌++◌, map, append_assoc, append-nil, arith, str_eq, eq_iff, ltb, leb, ◌==◌, if◌then◌else◌,
  ltb→lt, lt→ltb, ==_iff, Bool-cases, Option-cases, is_some, length, take, drop, length-append,
  take-append-drop, length-take, length-drop, select, some_of, first_such, All, All-map, All-append,
  All-map_of, All-zip, All-intro, All-take, take-append_ge, drop-append_le, drop-length,
  take_of_length-le, ◌>>=◌, ◌>>◌, raise_if, Result-cases, raise_if-eq-ok, ok-injective, >>=-eq-ok,
  Result, ok, err,
}

pub data HeaderError : Type 0 where
  struct_error invalid_length invalid_magic unsupported_version overflow : HeaderError

-- Big-endian fields: H, I and Q.
abbrev pub be16 : ℕ → List ℕ
be16 n = n / 256 % 256 ∷ n % 256 ∷ []

abbrev pub be32 : ℕ → List ℕ
be32 n = n / 16777216 % 256 ∷ n / 65536 % 256 ∷ n / 256 % 256 ∷ n % 256 ∷ []

abbrev pub be64 : ℕ → List ℕ
be64 n = be32 (n / 4294967296) ++ be32 n

-- The number that big-endian bytes spell.
abbrev pub from_be : ℕ → List ℕ → ℕ
from_be acc [] = acc
from_be acc (b ∷ bs) = from_be (acc * 256 + b) bs

abbrev pub zeros : ℕ → List ℕ
zeros zero = []
zeros (suc n) = 0 ∷ zeros n

-- The field 12s.
abbrev pub text12 : List ℕ → List ℕ
text12 bs = take 12 (bs ++ zeros 12)

-- b"BVPM"
abbrev pub magic : List ℕ
magic = 66 ∷ 86 ∷ 80 ∷ 77 ∷ []

unfoldable pub create_chunk_header : ℕ → List ℕ → ℕ → Result HeaderError (List ℕ)
create_chunk_header chunk_seq nonce ciphertext_len = do
  raise_if (leb (2 ^ 32) chunk_seq) struct_error
  raise_if (leb (2 ^ 32) ciphertext_len) struct_error
  ok (magic ++ be16 1 ++ be32 chunk_seq ++ text12 nonce ++ be32 ciphertext_len)

abbrev pub bytes_eq : List ℕ → List ℕ → Bool
bytes_eq [] [] = true
bytes_eq (x ∷ xs) (y ∷ ys) = (x == y) && bytes_eq xs ys
bytes_eq _ _ = false

unfoldable pub parse_chunk_header : List ℕ → Result HeaderError (ℕ × List ℕ × ℕ)
parse_chunk_header header = do
  raise_if (not (length header == 26)) invalid_length
  raise_if (not (bytes_eq (take 4 header) magic)) invalid_magic
  raise_if (not (from_be 0 (take 2 (drop 4 header)) == 1)) unsupported_version
  ok (
    from_be 0 (take 4 (drop 6 header)),
    take 12 (drop 10 header),
    from_be 0 (take 4 (drop 22 header)),
  )

unfoldable pub create_chunk_header_v2 : ℕ → List ℕ → ℕ → ℕ → Result HeaderError (List ℕ)
create_chunk_header_v2 chunk_seq nonce raw_len ciphertext_len = do
  raise_if (leb (2 ^ 32) chunk_seq) struct_error
  raise_if (leb (2 ^ 32) raw_len) struct_error
  raise_if (leb (2 ^ 32) ciphertext_len) struct_error
  ok (magic ++ be16 2 ++ be32 chunk_seq ++ be32 raw_len ++ be32 ciphertext_len ++ text12 nonce)

-- header + snapshot_id.encode("utf-8"), for the bytes of the id.
unfoldable pub create_aad : List ℕ → List ℕ → List ℕ
create_aad header snapshot_id = header ++ snapshot_id

-- NonceGenerator: the random prefix and the counter.
pub record NonceGenerator : Type 0 where
  pub prefix : List ℕ
  pub counter : ℕ

unfoldable pub next : NonceGenerator → Result HeaderError (List ℕ × NonceGenerator)
next gen = do
  raise_if (leb (2 ^ 64) gen.counter) overflow
  ok (gen.prefix ++ be64 gen.counter, record gen { counter = gen.counter + 1 })
