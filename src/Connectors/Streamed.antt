-- ===== src/Connectors/Streamed.antt =====
-- The chunks of stream_subprocess_with_watchdog (src/boveda/connectors.py) and the bytes of its reads.
use boveda_pyme.Prelude.{
  ℕ, ◌+◌, ◌-◌, ◌≤◌, ◌<◌, ◌≡◌, ◌⊎◌, Bool, true, false, List, [], ◌∷◌, ◌++◌, leb, if◌then◌else◌,
  length, All, refl, sym, ap, ◌∙◌, take, drop, arith, ok, err, Bool-cases, append_assoc, append-nil,
  take-append-drop, length-take, length-drop, length-append, inl, inr, subst,
}
use boveda_pyme.Pipeline.Tasks.{ReturnCode}
use boveda_pyme.FastCdc.{is_empty}
use boveda_pyme.FastCdc.Feed.{concat}
use boveda_pyme.Connectors.{
  Turn, shut_down, no_answer, received, stream_loop, Streamed, flush, give, then_wait,
  stream_subprocess_with_watchdog,
}

-- The bytes of the reads, until the loop ends.
abbrev pub bytes_of : List Turn → List ℕ
bytes_of [] = []
bytes_of (shut_down ∷ turns) = []
bytes_of (no_answer ∷ turns) = []
bytes_of (received chunk ∷ turns) =
    let rest = bytes_of turns in if is_empty chunk then [] else chunk ++ rest

-- Whether the loop ends by a read that is not answered in time.
abbrev pub times_out : List Turn → Bool
times_out [] = false
times_out (shut_down ∷ turns) = false
times_out (no_answer ∷ turns) = true
times_out (received chunk ∷ turns) =
    let rest = times_out turns in if is_empty chunk then false else rest

module _ (chunk_size : ℕ) where
  abbrev held_after : ℕ → ℕ
  held_after n = if leb chunk_size n then 0 else n

  -- Each read gives at most the bytes that were asked for, `n` being held.
  abbrev pub Reads : ℕ → List Turn → Type 0
  Reads n [] = Unit
  Reads n (shut_down ∷ turns) = Reads n turns
  Reads n (no_answer ∷ turns) = Reads n turns
  Reads n (received chunk ∷ turns) =
      (length chunk ≤ chunk_size - n) × Reads (held_after (n + length chunk)) turns

  abbrev pub IsChunk : List ℕ → Type 0
  IsChunk c = (0 < length c) × (length c ≤ chunk_size)

  -- The chunks of a stream, and the bytes that a timeout loses.
  pub record IsStreamed (whole : List ℕ) (timeout : Bool) (cs : List (List ℕ)) (lost : List ℕ)
      : Type 0 where
    pub bytes : concat cs ++ lost ≡ whole
    pub few : length lost < chunk_size
    pub none_lost : (lost ≡ []) ⊎ (timeout ≡ true)
    pub chunks : All IsChunk cs

  module _ (startup_timeout inactivity_timeout : ℕ) (positive : 0 < chunk_size) where
    flush_lem :
        (acc : List ℕ) → length acc < chunk_size → IsStreamed (acc ++ []) false (flush acc).0 []
    flush_lem [] b = record { bytes = refl; few = positive; none_lost = inl refl; chunks = tt }
    flush_lem (x ∷ acc) b = record {
      bytes = append-nil _;
      few = positive;
      none_lost = inl refl;
      chunks = ((omega arith, omega arith), tt);
    }

    give_lem :
        (ext whole : List ℕ) (timeout : Bool) (s : Streamed) (lost : List ℕ)
        → chunk_size ≤ length ext
        → IsStreamed (drop chunk_size ext ++ whole) timeout s.0 lost
        → IsStreamed (ext ++ whole) timeout (give (take chunk_size ext) s).0 lost
    give_lem ext whole timeout (cs, r) lost b i = record {
      bytes =
          append_assoc (take chunk_size ext) (concat cs) lost
          ∙ ap (λ x. take chunk_size ext ++ x) i.bytes
          ∙ sym (append_assoc (take chunk_size ext) (drop chunk_size ext) whole)
          ∙ ap (λ x. x ++ whole) (take-append-drop chunk_size ext);
      few = i.few;
      none_lost = i.none_lost;
      chunks = (
        (omega (arith, length-take chunk_size ext), omega (arith, length-take chunk_size ext)),
        i.chunks,
      );
    }

    abbrev loop : Bool → List ℕ → List Turn → Streamed
    loop first acc turns = stream_loop chunk_size startup_timeout inactivity_timeout first acc turns

    stream_loop_lem :
        (first : Bool) (acc : List ℕ) (turns : List Turn)
        → length acc < chunk_size
        → Reads (length acc) turns
        → (lost : List ℕ) × IsStreamed
            (acc ++ bytes_of turns)
            (times_out turns)
            (loop first acc turns).0
            lost
    unfolding stream_loop
    stream_loop_lem first acc [] b h = ([], flush_lem acc b)
    stream_loop_lem first acc (shut_down ∷ turns) b h = ([], flush_lem acc b)
    stream_loop_lem first acc (no_answer ∷ turns) b h =
        (acc, record { bytes = sym (append-nil acc); few = b; none_lost = inr refl; chunks = tt })
    stream_loop_lem first acc (received chunk ∷ turns) b h =
        let ext = acc ++ chunk in
        let size = length-append acc chunk in
        let left = length-drop chunk_size ext in
        let whole = append_assoc acc chunk (bytes_of turns) in
        elim (Bool-cases (is_empty chunk)) [
          | inl e ↦ rw e ([], flush_lem acc b)
          | inr e ↦ elim (Bool-cases (leb chunk_size (length ext))) [
            | inl full ↦
                (let held : held_after (length acc + length chunk) ≡ length (drop chunk_size ext) =
                    ground (arith, h.0) in
                  let (lost, i) =
                    stream_loop_lem false (drop chunk_size ext) turns (ground (arith, h.0))
                      (subst (λ n. Reads n turns) held h.1) in
                  let given =
                    give_lem ext (bytes_of turns) (times_out turns)
                      (loop false (drop chunk_size ext) turns) lost (ground arith) i in
                  (lost, rw (e, full) (rw whole at given)))
            | inr short ↦
                (let held : held_after (length acc + length chunk) ≡ length ext = ground arith in
                  let (lost, i) =
                    stream_loop_lem false ext turns (ground arith)
                      (subst (λ n. Reads n turns) held h.1) in
                  (lost, rw (e, short) (rw whole at i)))
          ]
        ]

    then_wait-chunks :
        (shutdown : Bool) (code : ReturnCode) (s : Streamed) → (then_wait shutdown code s).0 ≡ s.0
    then_wait-chunks shutdown code (cs, ok _) = refl
    then_wait-chunks shutdown code (cs, err e) = refl

    -- Provided that the chunk size is positive and that a read gives at most what was asked for: the
    -- chunks of a stream are the bytes of its reads, less those that a timeout loses, which are fewer
    -- than a chunk; no chunk is empty or longer than the chunk size.
    pub stream_subprocess_with_watchdog_lem :
        (turns : List Turn) (shutdown : Bool) (code : ReturnCode)
        → Reads 0 turns
        → (lost : List ℕ) × IsStreamed
            (bytes_of turns)
            (times_out turns)
            (stream_subprocess_with_watchdog chunk_size startup_timeout inactivity_timeout turns
              shutdown code).0
            lost
    unfolding stream_subprocess_with_watchdog
    stream_subprocess_with_watchdog_lem turns shutdown code h =
        let (lost, i) = stream_loop_lem true [] turns positive h in
        (lost, rw (then_wait-chunks shutdown code (loop true [] turns)) i)
