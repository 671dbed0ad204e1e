-- ===== src/FastCdc/Resume.antt =====
-- The rolling scan of src/boveda/fastcdc.py against one that starts over at each `feed`.
use boveda_pyme.Prelude.{
  ℕ, zero, suc, ◌+◌, ◌-◌, ◌≤◌, ◌<◌, min, max, ◌≡◌, refl, sym, ap, ◌∙◌, subst, ◌⊎◌, inl, inr, Bool,
  true, false, not, ◌&&◌, Option, none, some, List, [], ◌∷◌, ◌++◌, arith, ltb, ◌==◌, Bool-cases,
  length, take, drop, length-append, length-drop, take-append_ge, drop-append_le, drop-length,
  take_of_length-le,
}
use boveda_pyme.FastCdc.Boundary.{scan_bounds}
use boveda_pyme.FastCdc.{
  feed_loop, Sizes, AreSizes, Streamer, roll, scan, no_cut, after_scan,
  find_fastcdc_boundary_rolling, search_buffer, is_empty, drop_chunk, feed,
}
use mathlib.Core.Option

-- The streamer with its scan forgotten.
abbrev pub restart : Streamer → Streamer
restart st = record { buffer = st.buffer; scanned_offset = 0; fingerprint = 0 }

has_bytes : (bytes : List ℕ) → 0 < length bytes → is_empty bytes ≡ false
has_bytes [] n = absurd (omega arith)
has_bytes (b ∷ bytes) n = refl

no_bytes : (bytes : List ℕ) → is_empty bytes ≡ true → bytes ≡ []
no_bytes [] e = refl
no_bytes (b ∷ bytes) e = cc

some_bytes : (bytes : List ℕ) → is_empty bytes ≡ false → 0 < length bytes
some_bytes [] e = cc
some_bytes (b ∷ bytes) e = omega arith

map-eq-some :
    {A B : Type 0} (f : A → B) (o : Option A) {b : B}
    → Option.map f o ≡ some b
    → (a : A) × (o ≡ some a) × (f a ≡ b)
map-eq-some f none e = cc
map-eq-some f (some a) e = (a, refl, cc)

module _ (s : Sizes) (gear : ℕ → ℕ) where
  -- The offset and the fingerprint are those of a scan of the whole buffer that found no cut.
  pub record HasScanned (st : Streamer) : Type 0 where
    pub long : s.min_chunk_size ≤ length st.buffer
    pub offset : st.scanned_offset ≡ length st.buffer
    pub below : length st.buffer < s.max_chunk_size
    pub no_cut_yet :
        scan s gear (drop s.min_chunk_size st.buffer) s.min_chunk_size 0 ≡ (none, st.fingerprint)

  -- Either nothing has been scanned, or all of the buffer.
  abbrev pub IsScanned : Streamer → Type 0
  IsScanned st = (st ≡ restart st) ⊎ HasScanned st

  scan-append :
      (xs ys : List ℕ) (i fp fp' : ℕ)
      → scan s gear xs i fp ≡ (none, fp')
      → scan s gear (xs ++ ys) i fp ≡ scan s gear ys (i + length xs) fp'
  unfolding scan
  scan-append [] ys i fp fp' e = ground arith
  scan-append (x ∷ xs) ys i fp fp' e =
      ground (arith, scan-append xs ys (i + 1) (roll s gear fp x) fp')

  -- With more bytes behind the buffer, going on and starting over find the same.
  search-restart :
      (st : Streamer) (bytes : List ℕ) (is_eof : Bool)
      → HasScanned st
      → let more = record st { buffer = st.buffer ++ bytes } in
        search_buffer s gear is_eof more ≡ search_buffer s gear is_eof (restart more)
  unfolding find_fastcdc_boundary_rolling
  search-restart st bytes is_eof h =
      let buf = st.buffer in
      let all = buf ++ bytes in
      let low = s.min_chunk_size in
      let limit = min (min (length all) (length all)) s.max_chunk_size in
      let l = length-append buf bytes in
      let ld = length-drop low buf in
      let x = take (limit - length buf) bytes in
      let head = take-append_ge limit buf bytes (omega arith) in
      let offset : max low st.scanned_offset ≡ length buf = omega arith in
      let start : max low 0 ≡ low = omega arith in
      let reached : low + length (drop low buf) ≡ length buf = omega arith in
      let long : ltb (length all) low ≡ false = ground arith in
      let resumed =
        ap (λ k. scan s gear (drop k (take limit all)) k st.fingerprint) offset
        ∙ ap (λ t. scan s gear (drop (length buf) t) (length buf) st.fingerprint) head
        ∙ ap (λ t. scan s gear t (length buf) st.fingerprint) (drop-length buf x) in
      let restarted =
        ap (λ k. scan s gear (drop k (take limit all)) k 0) start
        ∙ ap (λ t. scan s gear (drop low t) low 0) head
        ∙ ap (λ t. scan s gear t low 0) (drop-append_le low buf x h.long)
        ∙ scan-append (drop low buf) x low 0 st.fingerprint h.no_cut_yet
        ∙ ap (λ k. scan s gear x k st.fingerprint) reached in
      rw long (ap (after_scan s gear (length all) limit is_eof) (resumed ∙ sym restarted))

  unfound :
      (n limit : ℕ) (is_eof : Bool) (r : Option ℕ × ℕ)
      → let found = after_scan s gear n limit is_eof r in
        found.boundary ≡ 0
        → limit ≡ min n s.max_chunk_size
        → 0 < n
        → 0 < s.max_chunk_size
        → ((k : ℕ) → r.0 ≡ some k → 0 < k)
        → (r ≡ (none, found.fingerprint)) × (n < s.max_chunk_size) × (found.scanned ≡ n)
  unfolding no_cut
  unfound n limit is_eof (some k, fp) z l p m c = absurd (let q = c k refl in omega arith)
  unfound n limit is_eof (none, fp) z l p m c = (ground arith, ground arith, ground arith)

  -- A search that finds no boundary has scanned the buffer.
  unfound-IsScanned :
      (st : Streamer) (is_eof : Bool)
      → AreSizes s
      → (search_buffer s gear is_eof (restart st)).boundary ≡ 0
      → 0 < length st.buffer
      → let found = search_buffer s gear is_eof (restart st) in
        IsScanned (record st { scanned_offset = found.scanned; fingerprint = found.fingerprint })
  unfolding find_fastcdc_boundary_rolling
  unfound-IsScanned st is_eof a z n = elim (Bool-cases (ltb (length st.buffer) s.min_chunk_size)) [
    | inl short ↦ inl (rw short refl)
    | inr long ↦ inr (
        let buf = st.buffer in
        let low = s.min_chunk_size in
        let limit = min (min (length buf) (length buf)) s.max_chunk_size in
        let start = max low 0 in
        let bytes = drop start (take limit buf) in
        let (none_found, below, all) =
          unfound (length buf) limit is_eof (scan s gear bytes start 0) (rw long at z) (omega arith)
            n (omega arith) (λ k e. let b = scan_bounds s gear bytes start 0 k e in omega arith) in
        let whole = take_of_length-le limit buf (omega arith) in
        let from_low : max low 0 ≡ low = omega arith in
        rw long record {
          long = ground arith;
          offset = all;
          below = below;
          no_cut_yet =
              ap (λ b. scan s gear (drop low b) low 0) (sym whole)
              ∙ ap (λ k. scan s gear (drop k (take limit buf)) k 0) (sym from_low)
              ∙ none_found;
        })
  ]

  -- With bytes appended, the search of a scanned streamer is that of the restarted one.
  search_any-restart :
      (st : Streamer) (bytes : List ℕ) (is_eof : Bool)
      → IsScanned st
      → let more = record st { buffer = st.buffer ++ bytes } in
        search_buffer s gear is_eof more ≡ search_buffer s gear is_eof (restart more)
  search_any-restart st bytes is_eof (inl fresh) =
      ap (λ (u : Streamer). search_buffer s gear is_eof (record u { buffer = st.buffer ++ bytes }))
        fresh
  search_any-restart st bytes is_eof (inr scanned) = search-restart st bytes is_eof scanned

  -- The loop on a streamer whose search is that of the restarted one.
  loop-restart :
      (fuel : ℕ) (is_eof : Bool) (st : Streamer)
      → search_buffer s gear is_eof st ≡ search_buffer s gear is_eof (restart st)
      → 0 < length st.buffer
      → feed_loop s gear fuel is_eof st ≡ feed_loop s gear fuel is_eof (restart st)
  unfolding feed_loop
  loop-restart zero is_eof st e n = refl
  loop-restart (suc fuel) is_eof st e n = rw (has_bytes st.buffer n, e) refl

  -- The loop leaves a streamer whose buffer is scanned or fresh.
  loop-IsScanned :
      (fuel : ℕ) (is_eof : Bool) (st : Streamer) (cs : List (List ℕ)) (st' : Streamer)
      → AreSizes s
      → feed_loop s gear fuel is_eof (restart st) ≡ some (cs, st')
      → IsScanned st'
  unfolding feed_loop
  loop-IsScanned zero is_eof st cs st' a e = absurd (cc)
  loop-IsScanned (suc fuel) is_eof st cs st' a e =
      let found = search_buffer s gear is_eof (restart st) in
      let k = found.boundary in
      elim (Bool-cases (is_empty st.buffer)) [
        | inl empty ↦
            let fresh : IsScanned (restart st) = inl refl in
            let same : restart st ≡ st' = ground arith in subst IsScanned same fresh
        | inr full ↦ elim (Bool-cases (k == 0)) [
          | inl z ↦
              subst IsScanned (ground arith)
                (unfound-IsScanned st is_eof a (ground arith) (some_bytes st.buffer full))
          | inr n ↦
              elim (Bool-cases
                (not is_eof && ltb (length (drop_chunk k st).buffer) s.min_chunk_size)) [
                  | inl stop ↦
                      let fresh : IsScanned (drop_chunk k st) = inl refl in
                      let same : drop_chunk k st ≡ st' = ground arith in subst IsScanned same fresh
                  | inr go ↦
                      let ((ds, u), returns, same) =
                        map-eq-some _ (feed_loop s gear fuel is_eof (drop_chunk k st))
                          (rw (full, n, go) at e) in
                      subst IsScanned (ap (λ p. p.1) same)
                        (loop-IsScanned fuel is_eof (drop_chunk k st) ds u a returns)
                ]
        ]
      ]

  feed-empty : (st : Streamer) → AreSizes s → IsScanned st → length st.buffer ≡ 0 → st ≡ restart st
  feed-empty st a (inl fresh) e = fresh
  feed-empty st a (inr h) e = absurd (let l = h.long in omega arith)

  more-restart :
      (bytes : List ℕ) (is_eof : Bool) (st : Streamer)
      → AreSizes s
      → IsScanned st
      → let more = record st { buffer = st.buffer ++ bytes } in
        let fuel = length more.buffer + 1 in
        feed_loop s gear fuel is_eof more ≡ feed_loop s gear fuel is_eof (restart more)
  more-restart bytes is_eof st a h =
      let more = record st { buffer = st.buffer ++ bytes } in
      let fuel = length more.buffer + 1 in
      elim (Bool-cases (is_empty more.buffer)) [
        | inl empty ↦
            let l = length-append st.buffer bytes in
            let z = ap length (no_bytes more.buffer empty) in
            ap
              (λ (u : Streamer).
                feed_loop s gear fuel is_eof (record u { buffer = st.buffer ++ bytes }))
              (feed-empty st a h (omega arith))
        | inr full ↦
            loop-restart fuel is_eof more (search_any-restart st bytes is_eof h)
              (some_bytes more.buffer full)
      ]

  -- Going on where the last `feed` stopped gives the same chunks and the same streamer as scanning
  -- the whole buffer again.
  pub feed-restart :
      (bytes : List ℕ) (is_eof : Bool) (st : Streamer)
      → AreSizes s
      → IsScanned st
      → feed s gear bytes is_eof st ≡ feed s gear bytes is_eof (restart st)
  unfolding feed
  feed-restart = more-restart

  -- The condition for that holds again of the streamer that a `feed` leaves.
  pub feed-IsScanned :
      (bytes : List ℕ) (is_eof : Bool) (st : Streamer) (cs : List (List ℕ)) (st' : Streamer)
      → AreSizes s
      → IsScanned st
      → feed s gear bytes is_eof st ≡ some (cs, st')
      → IsScanned st'
  unfolding feed
  feed-IsScanned bytes is_eof st cs st' a h e =
      let more = record st { buffer = st.buffer ++ bytes } in
      loop-IsScanned (length more.buffer + 1) is_eof more cs st' a
        (sym (more-restart bytes is_eof st a h) ∙ e)
