-- ===== src/Backup/Link.antt =====
-- The keys of the rows when src/boveda/cli.py links a chunk.
use boveda_pyme.Prelude.{ℕ, String, List, arith, All-map}
use boveda_pyme.Catalog.{ChunkPool, has_hash, on_link, after_insert}
use boveda_pyme.Backup.Rows.{Keyed}
use boveda_pyme.Backup.Sound.{All-update}

pub link-Keyed :
    (now : ℕ) (h : String) (pool : List ChunkPool) → Keyed pool → Keyed (after_insert now h pool)
unfolding on_link
link-Keyed now h pool k =
    All-update _ (has_hash h) (on_link now) pool (All-map _ _ pool (λ r a. ground arith) k)
