-- ===== src/FastCdc.antt =====
-- Content-defined chunking of src/boveda/fastcdc.py. The sizes and masks are a record, with the
-- source's constants as `default_sizes`; `gear` is GEAR_TABLE, whose entries come from SHA-256.
pub mod Boundary
pub mod Feed
pub mod Resume
use Prim.Native.Nat.{bit_and}
use boveda_pyme.Prelude.{
  ℕ, zero, suc, ◌+◌, ◌-◌, ◌*◌, ◌/◌, ◌%◌, ◌^◌, ◌≤◌, ◌<◌, min, max, String, ◌≡◌, refl, sym, ap, ◌∙◌,
  subst, ◌≢◌, ◌↔◌, ◌⊎◌, inl, inr, Bool, true, false, not, ◌&&◌, ◌||◌, Option, none, some, List, [],
  ◌∷◌, ◌++◌, map, append_assoc, append-nil, arith, str_eq, eq_iff, ltb, leb, ◌==◌, if◌then◌else◌,
  ltb→lt, lt→ltb, ==_iff, Bool-cases, Option-cases, length, take, drop, length-append,
  take-append-drop, length-take, length-drop, select, some_of, first_such, All, All-map, All-append,
  All-map_of, All-zip, All-intro, All-take, ◌>>=◌, ◌>>◌, raise_if, Result-cases, raise_if-eq-ok,
  ok-injective, >>=-eq-ok, Result, ok, err,
}
use mathlib.Core.Option

pub record Sizes : Type 0 where
  pub min_chunk_size : ℕ
  pub avg_chunk_size : ℕ
  pub max_chunk_size : ℕ
  pub mask_strict : ℕ
  pub mask_lax : ℕ

abbrev pub default_sizes : Sizes
default_sizes = record {
  min_chunk_size = 1 * 1024 * 1024;
  avg_chunk_size = 2 * 1024 * 1024;
  max_chunk_size = 4 * 1024 * 1024;
  mask_strict = 0x003FFFFF;
  mask_lax = 0x000FFFFF;
}

-- What the code takes for granted of its constants.
pub record AreSizes (s : Sizes) : Type 0 where
  pub min_positive : 0 < s.min_chunk_size
  pub min_below_max : s.min_chunk_size < s.max_chunk_size

-- FastCDCStreamer
pub record Streamer : Type 0 where
  pub buffer : List ℕ
  pub scanned_offset : ℕ
  pub fingerprint : ℕ

abbrev pub new_streamer : Streamer
new_streamer = record { buffer = []; scanned_offset = 0; fingerprint = 0 }

-- What find_fastcdc_boundary_rolling returns.
pub record Found : Type 0 where
  pub boundary : ℕ
  pub fingerprint : ℕ
  pub scanned : ℕ

abbrev pub is_empty : List ℕ → Bool
is_empty [] = true
is_empty (_ ∷ _) = false

-- `del self._buffer[:boundary]`, with the offsets reset.
abbrev pub drop_chunk : ℕ → Streamer → Streamer
drop_chunk k st = record { buffer = drop k st.buffer; scanned_offset = 0; fingerprint = 0 }

module _ (s : Sizes) (gear : ℕ → ℕ) where
  -- The fingerprint is a uint64.
  unfoldable pub roll : ℕ → ℕ → ℕ
  roll fp b = (fp * 2 + gear b) % 2 ^ 64

  unfoldable pub is_cut : ℕ → ℕ → Bool
  is_cut i fp =
      if ltb i s.avg_chunk_size then bit_and fp s.mask_strict == 0 else (bit_and fp s.mask_lax == 0)

  -- `for i in range(start_scan, scan_limit)`, over the bytes of that range.
  unfoldable pub scan : List ℕ → ℕ → ℕ → Option ℕ × ℕ
  scan [] i fp = (none, fp)
  scan (b ∷ bs) i fp =
      let rest = scan bs (i + 1) (roll fp b) in
      if is_cut i (roll fp b) then (some (i + 1), roll fp b) else rest

  -- After a scan that found no cut.
  unfoldable pub no_cut : ℕ → ℕ → Bool → ℕ → Found
  no_cut buf_len scan_limit is_eof fp =
      if leb s.max_chunk_size scan_limit
      then record { boundary = s.max_chunk_size; fingerprint = fp; scanned = s.max_chunk_size }
      else (if is_eof && ltb 0 buf_len
          then record { boundary = buf_len; fingerprint = fp; scanned = buf_len }
          else record { boundary = 0; fingerprint = fp; scanned = scan_limit })

  abbrev pub after_scan : ℕ → ℕ → Bool → Option ℕ × ℕ → Found
  after_scan buf_len scan_limit is_eof (some k, fp) = record {
    boundary = k;
    fingerprint = fp;
    scanned = k;
  }
  after_scan buf_len scan_limit is_eof (none, fp) = no_cut buf_len scan_limit is_eof fp

  unfoldable pub find_fastcdc_boundary_rolling : List ℕ → ℕ → ℕ → ℕ → Bool → Found
  find_fastcdc_boundary_rolling buf start_offset max_offset fp is_eof =
      let buf_len = length buf in
      let scan_limit = min (min buf_len max_offset) s.max_chunk_size in
      let start_scan = max s.min_chunk_size start_offset in
      if ltb buf_len s.min_chunk_size
      then record { boundary = if is_eof then buf_len else 0; fingerprint = fp; scanned = 0 }
      else after_scan buf_len scan_limit is_eof
          (scan (drop start_scan (take scan_limit buf)) start_scan fp)

  -- find_fastcdc_boundary
  unfoldable pub find_fastcdc_boundary : List ℕ → ℕ → ℕ → Bool → ℕ
  find_fastcdc_boundary buf start_offset max_offset is_eof =
      (find_fastcdc_boundary_rolling buf start_offset max_offset 0 is_eof).boundary

  -- The search of one round of `feed`.
  abbrev pub search_buffer : Bool → Streamer → Found
  search_buffer is_eof st =
      find_fastcdc_boundary_rolling st.buffer st.scanned_offset (length st.buffer) st.fingerprint
        is_eof

  -- The `while True` of `feed`, with the chunks that it yields; `none` is that the fuel ran out.
  unfoldable pub feed_loop : ℕ → Bool → Streamer → Option (List (List ℕ) × Streamer)
  feed_loop zero is_eof st = none
  feed_loop (suc fuel) is_eof st =
      let found = search_buffer is_eof st in
      let chunk = take found.boundary st.buffer in
      let st' = drop_chunk found.boundary st in
      let rest = Option.map (λ r. (chunk ∷ r.0, r.1)) (feed_loop fuel is_eof st') in
      if is_empty st.buffer
      then some ([], st)
      else (if found.boundary == 0
          then some
              ([], record st { scanned_offset = found.scanned; fingerprint = found.fingerprint })
          else (if not is_eof && ltb (length st'.buffer) s.min_chunk_size
              then some (chunk ∷ [], st')
              else rest))

  -- `feed`, with fuel for a round for each byte.
  unfoldable pub feed : List ℕ → Bool → Streamer → Option (List (List ℕ) × Streamer)
  feed bytes is_eof st =
      let st' = record st { buffer = st.buffer ++ bytes } in
      feed_loop (length st'.buffer + 1) is_eof st'
