-- ===== src/Pipeline/Source.antt =====
-- The chunks that read_source of src/boveda/engine.py puts in the queue, from what each read of the
-- process gives: a read of no bytes is the end of the input.
use boveda_pyme.Prelude.{
  ℕ, ◌≡◌, refl, sym, ap, ◌∙◌, true, false, Option, none, some, List, [], ◌∷◌, ◌++◌, append_assoc,
  append-nil, if◌then◌else◌, All,
}
use boveda_pyme.FastCdc.{Sizes, AreSizes, Streamer, new_streamer, is_empty, feed}
use boveda_pyme.FastCdc.Feed.{concat, feed-IsSplit}

abbrev after_read : List (List ℕ) → Option (List (List ℕ)) → Option (List (List ℕ))
after_read cs none = none
after_read cs (some ds) = some (cs ++ ds)

abbrev last_read : Option (List (List ℕ) × Streamer) → Option (List (List ℕ))
last_read none = none
last_read (some (cs, st)) = some cs

abbrev more_reads :
    (Streamer → Option (List (List ℕ))) → Option (List (List ℕ) × Streamer) → Option (List (List ℕ))
more_reads rest none = none
more_reads rest (some (cs, st)) = after_read cs (rest st)

module _ (s : Sizes) (gear : ℕ → ℕ) where
  unfoldable pub read_chunks : List (List ℕ) → Streamer → Option (List (List ℕ))
  read_chunks [] st = last_read (feed s gear [] true st)
  read_chunks (raw_bytes ∷ reads) st =
      let rest = more_reads (read_chunks reads) (feed s gear raw_bytes false st) in
      if is_empty raw_bytes then last_read (feed s gear raw_bytes true st) else rest

  unfoldable pub read_source : List (List ℕ) → Option (List (List ℕ))
  unfolding read_chunks
  read_source reads = read_chunks reads new_streamer

concat-append : (cs ds : List (List ℕ)) → concat (cs ++ ds) ≡ concat cs ++ concat ds
concat-append [] ds = refl
concat-append (c ∷ cs) ds =
    ap (λ x. c ++ x) (concat-append cs ds) ∙ sym (append_assoc c (concat cs) (concat ds))

module _ (s : Sizes) (gear : ℕ → ℕ) (a : AreSizes s) where
  read_chunks_lem :
      (reads : List (List ℕ)) (st : Streamer)
      → All (λ r. is_empty r ≡ false) reads
      → (cs : List (List ℕ)) × (read_chunks s gear reads st ≡ some cs)
        × (concat cs ≡ st.buffer ++ concat reads)
  unfolding read_chunks
  read_chunks_lem [] st h =
      let (cs, st', e, sp) = feed-IsSplit s gear a [] true st in
      (
        cs,
        rw e refl,
        sym (append-nil (concat cs)) ∙ ap (λ b. concat cs ++ b) (sym (sp.drained refl)) ∙ sp.whole,
      )
  read_chunks_lem (r ∷ reads) st h =
      let (cs, st', e, sp) = feed-IsSplit s gear a r false st in
      let (ds, f, whole) = read_chunks_lem reads st' h.1 in
      (
        cs ++ ds,
        rw (h.0, e, f) refl,
        concat-append cs ds
            ∙ ap (λ x. concat cs ++ x) whole
            ∙ sym (append_assoc (concat cs) st'.buffer (concat reads))
            ∙ ap (λ x. x ++ concat reads) sp.whole
            ∙ append_assoc st.buffer r (concat reads),
      )

  -- Provided that no read before the end is empty, the reader gets through its input, and its
  -- chunks are the bytes of all the reads.
  pub read_source_lem :
      (reads : List (List ℕ))
      → All (λ r. is_empty r ≡ false) reads
      → (cs : List (List ℕ)) × (read_source s gear reads ≡ some cs) × (concat cs ≡ concat reads)
  unfolding read_source
  read_source_lem reads h = read_chunks_lem reads new_streamer h
