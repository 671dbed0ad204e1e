-- ===== src/Tests/Chunks.antt =====
-- Witnesses for the chunking, with small sizes and a table that is the byte itself.
use boveda_pyme.Prelude.{ℕ, ◌≡◌, refl, inl, true, false, some, List, [], ◌∷◌, arith}
use boveda_pyme.Tests.Samples.{small, small-AreSizes, gear}
use boveda_pyme.FastCdc.{
  feed_loop, find_fastcdc_boundary_rolling, scan, is_cut, roll, no_cut, AreSizes, Streamer,
  new_streamer, feed, default_sizes,
}
use boveda_pyme.FastCdc.Feed.{IsSplit, feed-IsSplit}
use boveda_pyme.FastCdc.Resume.{restart, feed-restart}
use mathlib.Core.Option

default-AreSizes : AreSizes default_sizes
default-AreSizes = omega arith

abbrev bytes : List ℕ
bytes = 5 ∷ 1 ∷ 3 ∷ 2 ∷ 7 ∷ 9 ∷ 4 ∷ 4 ∷ 1 ∷ []

feed_runs :
    Option.map (λ r. r.0) (feed small gear bytes true new_streamer)
    ≡ some ((5 ∷ 1 ∷ 3 ∷ 2 ∷ []) ∷ (7 ∷ 9 ∷ 4 ∷ []) ∷ (4 ∷ 1 ∷ []) ∷ [])
unfolding feed feed_loop find_fastcdc_boundary_rolling scan is_cut roll no_cut
feed_runs = refl

feed-IsSplit_example :
    (cs : List (List ℕ)) × (st' : Streamer) × (feed small gear bytes true new_streamer
      ≡ some (cs, st'))
    × IsSplit small true bytes cs st'
feed-IsSplit_example = feed-IsSplit small gear small-AreSizes bytes true new_streamer

feed-restart_example :
    feed small gear bytes false new_streamer ≡ feed small gear bytes false (restart new_streamer)
feed-restart_example = feed-restart small gear bytes false new_streamer small-AreSizes (inl refl)
