-- ===== src/FastCdc/Boundary.antt =====
-- Where the search of src/boveda/fastcdc.py cuts, and that the buffer of a streamer is never lost.
use boveda_pyme.Prelude.{
  ℕ, ◌+◌, ◌≤◌, ◌<◌, min, max, ◌≡◌, refl, ◌≢◌, inl, inr, Bool, true, false, Option, none, some, List,
  [], ◌∷◌, arith, ltb, Bool-cases, length, take, drop, length-take, length-drop,
}
use boveda_pyme.FastCdc.{
  Sizes, AreSizes, scan, no_cut, after_scan, find_fastcdc_boundary_rolling, roll,
}

module _ (s : Sizes) (gear : ℕ → ℕ) where
  -- A cut lies behind the byte at which the scan stood, and inside the range.
  pub scan_bounds :
      (bs : List ℕ) (i fp k : ℕ) → (scan s gear bs i fp).0 ≡ some k → (i < k) × (k ≤ i + length bs)
  unfolding scan
  scan_bounds [] i fp k e = absurd (cc)
  scan_bounds (b ∷ bs) i fp k e = ground (arith, scan_bounds bs (i + 1) (roll s gear fp b) k)

  -- Where the whole buffer may be searched, a boundary lies in it and is at most the largest size;
  -- before the end of the input it is at least the smallest; at the end there is one.
  pub record IsBoundary (buf : List ℕ) (is_eof : Bool) (k : ℕ) : Type 0 where
    pub inside : k ≤ length buf
    pub at_most : k ≤ s.max_chunk_size
    pub at_least : is_eof ≡ false → k ≢ 0 → s.min_chunk_size ≤ k
    pub at_eof : is_eof ≡ true → 0 < length buf → 0 < k

  after-IsBoundary :
      (buf : List ℕ) (limit : ℕ) (is_eof : Bool) (r : Option ℕ × ℕ)
      → AreSizes s
      → limit ≡ min (length buf) s.max_chunk_size
      → s.min_chunk_size ≤ length buf
      → ((k : ℕ) → r.0 ≡ some k → (s.min_chunk_size < k) × (k ≤ limit))
      → IsBoundary buf is_eof (after_scan s gear (length buf) limit is_eof r).boundary
  unfolding no_cut
  after-IsBoundary buf limit is_eof (some k, fp) a l m c =
      let (above, below) = c k refl in
      record {
        inside = omega arith;
        at_most = omega arith;
        at_least = λ e n. omega arith;
        at_eof = λ e n. omega arith;
      }
  after-IsBoundary buf limit is_eof (none, fp) a l m c = record {
    inside = ground arith;
    at_most = ground arith;
    at_least = λ e n. ground arith;
    at_eof = λ e n. ground arith;
  }

  -- Where the whole buffer may be searched, the boundary is one in this sense.
  pub find_IsBoundary :
      (buf : List ℕ) (start fp : ℕ) (is_eof : Bool)
      → AreSizes s
      → IsBoundary buf is_eof
          (find_fastcdc_boundary_rolling s gear buf start (length buf) fp is_eof).boundary
  unfolding find_fastcdc_boundary_rolling
  find_IsBoundary buf start fp is_eof a = elim (Bool-cases (ltb (length buf) s.min_chunk_size)) [
    | inl short ↦ rw short record {
      inside = ground arith;
      at_most = ground arith;
      at_least = λ e n. ground arith;
      at_eof = λ e n. ground arith;
    }
    | inr long ↦
        let limit = min (min (length buf) (length buf)) s.max_chunk_size in
        let start_scan = max s.min_chunk_size start in
        let bytes = drop start_scan (take limit buf) in
        let l = length-drop start_scan (take limit buf) in
        let m = length-take limit buf in
        rw long (
          after-IsBoundary buf limit is_eof (scan s gear bytes start_scan fp) a (omega arith)
            (ground arith)
            (λ k e.
              let (above, below) = scan_bounds bytes start_scan fp k e in
              (omega arith, omega arith)))
  ]
