-- ===== src/FastCdc/Feed.antt =====
-- `FastCDCStreamer.feed` of src/boveda/fastcdc.py: it returns, and loses and repeats no byte.
use boveda_pyme.Prelude.{
  ℕ, zero, suc, ◌+◌, ◌≤◌, ◌<◌, ◌≡◌, refl, ap, ◌∙◌, ◌≢◌, inl, inr, Bool, true, false, not, ◌&&◌,
  some, List, [], ◌∷◌, ◌++◌, append_assoc, arith, ltb, ◌==◌, Bool-cases, length, take, drop,
  take-append-drop, length-take, length-drop, All,
}
use boveda_pyme.FastCdc.{
  Sizes, AreSizes, Streamer, search_buffer, is_empty, drop_chunk, feed_loop, feed,
}
use boveda_pyme.FastCdc.Boundary.{IsBoundary, find_IsBoundary}

-- The bytes of a list of chunks.
abbrev pub concat : List (List ℕ) → List ℕ
concat [] = []
concat (c ∷ cs) = c ++ concat cs

-- The bounds on a chunk, the lower one while the input has not ended.
abbrev pub GoodChunk : Sizes → Bool → List ℕ → Type 0
GoodChunk s is_eof c =
    (0 < length c) × (length c ≤ s.max_chunk_size) × (is_eof ≡ false → s.min_chunk_size ≤ length c)

-- The chunks and then what stays in the buffer are the bytes; at the end nothing stays.
pub record IsSplit (s : Sizes) (is_eof : Bool) (bytes : List ℕ) (cs : List (List ℕ)) (st : Streamer)
    : Type 0 where
  pub whole : concat cs ++ st.buffer ≡ bytes
  pub chunks : All (GoodChunk s is_eof) cs
  pub drained : is_eof ≡ true → st.buffer ≡ []

empty_buffer : (bytes : List ℕ) → is_empty bytes ≡ true → bytes ≡ []
empty_buffer [] e = refl
empty_buffer (b ∷ bytes) e = cc

nonempty : (bytes : List ℕ) → is_empty bytes ≡ false → 0 < length bytes
nonempty [] e = cc
nonempty (b ∷ bytes) e = omega arith

module _ (s : Sizes) (gear : ℕ → ℕ) (a : AreSizes s) where
  chunk-GoodChunk :
      (is_eof : Bool) (bytes : List ℕ) (k : ℕ)
      → IsBoundary s gear bytes is_eof k
      → k ≢ 0
      → GoodChunk s is_eof (take k bytes)
  chunk-GoodChunk is_eof bytes k b n =
      let l = length-take k bytes in
      let inside = b.inside in
      let most = b.at_most in
      (omega arith, omega arith, λ e. let least = b.at_least e n in omega arith)

  -- A chunk in front of a split of the rest.
  cons-IsSplit :
      (is_eof : Bool) (bytes : List ℕ) (k : ℕ) (cs : List (List ℕ)) (st : Streamer)
      → IsBoundary s gear bytes is_eof k
      → k ≢ 0
      → IsSplit s is_eof (drop k bytes) cs st
      → IsSplit s is_eof bytes (take k bytes ∷ cs) st
  cons-IsSplit is_eof bytes k cs st b n sp = record {
    whole =
        append_assoc (take k bytes) (concat cs) st.buffer
        ∙ ap (λ r. take k bytes ++ r) sp.whole
        ∙ take-append-drop k bytes;
    chunks = (chunk-GoodChunk is_eof bytes k b n, sp.chunks);
    drained = sp.drained;
  }

  abbrev Splits : ℕ → Bool → Streamer → Type 0
  Splits fuel is_eof st =
      (cs : List (List ℕ)) × (st' : Streamer) × (feed_loop s gear fuel is_eof st ≡ some (cs, st'))
      × IsSplit s is_eof st.buffer cs st'

  -- With fuel for a round for each byte the loop returns, and splits the buffer.
  feed_loop-IsSplit :
      (fuel : ℕ) (is_eof : Bool) (st : Streamer) → length st.buffer < fuel → Splits fuel is_eof st
  unfolding feed_loop
  feed_loop-IsSplit zero is_eof st h = absurd (omega arith)
  feed_loop-IsSplit (suc fuel) is_eof st h =
      let found = search_buffer s gear is_eof st in
      let k = found.boundary in
      let b = find_IsBoundary s gear st.buffer st.scanned_offset st.fingerprint is_eof a in
      elim (Bool-cases (is_empty st.buffer)) [
        | inl e ↦ (
          [],
          st,
          rw e refl,
          record { whole = refl; chunks = tt; drained = λ _. empty_buffer st.buffer e },
        )
        | inr e ↦ elim (Bool-cases (k == 0)) [
          | inl z ↦ (
            [],
            record st { scanned_offset = found.scanned; fingerprint = found.fingerprint },
            rw (e, z) refl,
            record {
              whole = refl;
              chunks = tt;
              drained = λ eof. absurd (let p = b.at_eof eof (nonempty st.buffer e) in ground arith);
            },
          )
          | inr n ↦
              let st' = drop_chunk k st in
              elim (Bool-cases (not is_eof && ltb (length st'.buffer) s.min_chunk_size)) [
                | inl stop ↦ (
                  take k st.buffer ∷ [],
                  st',
                  rw (e, n, stop) refl,
                  cons-IsSplit is_eof st.buffer k [] st' b (λ q. ground arith)
                      (record {
                        whole = refl;
                        chunks = tt;
                        drained = λ eof. absurd (ground arith);
                      }),
                )
                | inr go ↦
                    let l = length-drop k st.buffer in
                    let (cs, st'', returns, split) =
                      feed_loop-IsSplit fuel is_eof st' (ground arith) in
                    (
                      take k st.buffer ∷ cs,
                      st'',
                      rw (e, n, go, returns) refl,
                      cons-IsSplit is_eof st.buffer k cs st'' b (λ q. ground arith) split,
                    )
              ]
        ]
      ]

  -- `feed` always returns; the chunks that it yields and then the new buffer are the old buffer and
  -- the new bytes; every chunk is not empty and at most of the largest size, and at least of the
  -- smallest unless the input has ended; at the end of the input the buffer is empty.
  pub feed-IsSplit :
      (bytes : List ℕ) (is_eof : Bool) (st : Streamer)
      → (cs : List (List ℕ)) × (st' : Streamer) × (feed s gear bytes is_eof st ≡ some (cs, st'))
        × IsSplit s is_eof (st.buffer ++ bytes) cs st'
  unfolding feed
  feed-IsSplit bytes is_eof st =
      feed_loop-IsSplit (length (st.buffer ++ bytes) + 1) is_eof
        (record st { buffer = st.buffer ++ bytes }) (omega arith)
