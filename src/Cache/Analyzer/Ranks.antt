-- ===== src/Cache/Analyzer/Ranks.antt =====
-- The priorities of the targets.
use fresh_core_native.Prelude.{ℕ, ◌≤◌, arith}
use fresh_core_native.CacheData.{PackageState}
use fresh_core_native.Cache.Analyzer.{priority_of}

-- Every priority is from 1 to 4, and a larger cache, or one that grows faster, has no lower one.
priority_of_ranks :
    (size size' : ℕ) (st st' : PackageState)
    → size ≤ size'
    → st.growth_rate_bytes_per_day ≤ st'.growth_rate_bytes_per_day
    → (1 ≤ priority_of size st)
      × ((priority_of size' st' ≤ 4) × (priority_of size st ≤ priority_of size' st'))
unfolding priority_of
priority_of_ranks size size' st st' larger faster = (ground arith, (ground arith, ground arith))
