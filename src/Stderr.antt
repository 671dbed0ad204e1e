-- ===== src/Stderr.antt =====
-- drain_stderr_nonblocking of src/boveda/connectors.py, which src/boveda/engine.py starts too: what a
-- ring buffer of chunks (a deque with a maxlen) keeps of the error output of a process. A read is what
-- the stream gives; an empty one ends the task.
use boveda_pyme.Prelude.{
  ℕ, zero, suc, ◌+◌, ◌-◌, ◌≤◌, ◌≡◌, refl, ap, ◌∙◌, sym, List, [], ◌∷◌, ◌++◌, arith, length, drop,
  length-append, length-drop, if◌then◌else◌, Bool-cases, inl, inr, append_assoc, append-nil,
  drop-append_le,
}
use boveda_pyme.Purge.{is_empty}

-- `ring_buffer.append(chunk)`
unfoldable pub append_bounded : ℕ → List (List ℕ) → List ℕ → List (List ℕ)
append_bounded maxlen ring chunk =
    let longer = ring ++ chunk ∷ [] in drop (length longer - maxlen) longer

unfoldable pub drain_stderr : ℕ → List (List ℕ) → List (List ℕ) → List (List ℕ)
unfolding append_bounded
drain_stderr maxlen ring [] = ring
drain_stderr maxlen ring (chunk ∷ reads) =
    let rest = drain_stderr maxlen (append_bounded maxlen ring chunk) reads in
    if is_empty chunk then ring else rest

-- The chunks before the end of the stream.
abbrev pub before_end : List (List ℕ) → List (List ℕ)
before_end [] = []
before_end (chunk ∷ reads) =
    let rest = before_end reads in if is_empty chunk then [] else chunk ∷ rest

abbrev pub last_of : ℕ → List (List ℕ) → List (List ℕ)
last_of n chunks = drop (length chunks - n) chunks

drop_nil : (k : ℕ) → ◌≡◌ {A = List (List ℕ)} (drop k []) []
drop_nil zero = refl
drop_nil (suc k) = refl

drop-drop : (m n : ℕ) (xs : List (List ℕ)) → drop m (drop n xs) ≡ drop (n + m) xs
drop-drop m zero xs = let e : m ≡ 0 + m = omega arith in ap (λ k. drop k xs) e
drop-drop m (suc n) [] = drop_nil m ∙ sym (drop_nil (suc n + m))
drop-drop m (suc n) (x ∷ xs) =
    let e : suc (n + m) ≡ suc n + m = omega arith in drop-drop m n xs ∙ ap (λ k. drop k (x ∷ xs)) e

-- Appending to the last chunks gives the last chunks.
append_bounded-last_of :
    (n : ℕ) (seen : List (List ℕ)) (chunk : List ℕ)
    → append_bounded n (last_of n seen) chunk ≡ last_of n (seen ++ chunk ∷ [])
unfolding append_bounded
append_bounded-last_of n seen chunk =
    let k = length seen - n in
    let all = seen ++ chunk ∷ [] in
    let shifted : last_of n seen ++ chunk ∷ [] ≡ drop k all =
      sym (drop-append_le k seen (chunk ∷ []) (omega arith)) in
    let count : k + (length (drop k all) - n) ≡ length all - n =
      omega (arith, length-drop k all, length-append seen (chunk ∷ [])) in
    ap (λ l. drop (length l - n) l) shifted
    ∙ drop-drop (length (drop k all) - n) k all
    ∙ ap (λ m. drop m all) count

drain_from :
    (n : ℕ) (seen reads : List (List ℕ))
    → drain_stderr n (last_of n seen) reads ≡ last_of n (seen ++ before_end reads)
unfolding drain_stderr
drain_from n seen [] = ap (last_of n) (sym (append-nil seen))
drain_from n seen (chunk ∷ reads) = elim (Bool-cases (is_empty chunk)) [
  | inl end ↦ rw end (ap (last_of n) (sym (append-nil seen)))
  | inr more ↦ rw more (
      ap (λ ring. drain_stderr n ring reads) (append_bounded-last_of n seen chunk)
      ∙ drain_from n (seen ++ chunk ∷ []) reads
      ∙ ap (last_of n) (append_assoc seen (chunk ∷ []) (before_end reads)))
]

-- The ring buffer ends with the last chunks before the end of the stream, and holds at most maxlen.
pub drain_stderr_lem :
    (maxlen : ℕ) (reads : List (List ℕ))
    → (drain_stderr maxlen [] reads ≡ last_of maxlen (before_end reads))
      × (length (drain_stderr maxlen [] reads) ≤ maxlen)
drain_stderr_lem maxlen reads =
    let kept = before_end reads in
    let e : drain_stderr maxlen [] reads ≡ last_of maxlen kept =
      ap (λ ring. drain_stderr maxlen ring reads) (sym (drop_nil (0 - maxlen)))
      ∙ drain_from maxlen [] reads in
    (e, omega (arith, ap length e, length-drop (length kept - maxlen) kept))
