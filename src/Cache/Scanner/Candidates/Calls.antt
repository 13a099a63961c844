-- ===== src/Cache/Scanner/Candidates/Calls.antt =====
-- Scanning for cache directories removes no file and leaves the configuration and the engine alone.
use fresh_core_native.Prelude.{Bytes, List, [], ◌∷◌}
use fresh_core_native.CacheData.{PackageInfo}
use fresh_core_native.Os.{Env}
use fresh_core_native.Sys.Monad.{Runs, Runs-bind}
use fresh_core_native.Sys.Frame.{Frame, Frame-IsPreorder, frames}
use fresh_core_native.Filesystem.Calls.{lstat-Frame}
use fresh_core_native.Cache.Policy.Calls.{is_valid_cache_path-Frame}
use fresh_core_native.Cache.Scanner.Candidates.{scan_candidates, scan_package_cache}

module _ ⦃env : Env⦄ {P : Bytes → Type 0} where
  scan_candidates-Frame :
      (pkg : PackageInfo) (cands : List Bytes) → Runs (Frame P) (scan_candidates pkg cands)
  unfolding scan_candidates
  scan_candidates-Frame pkg [] = search frames
  scan_candidates-Frame pkg (cand ∷ cands) =
      Runs-bind _ _ (search (frames, lstat-Frame, is_valid_cache_path-Frame) depth 30)
        (λ kept. search (frames, scan_candidates-Frame pkg cands))

  pub scan_package_cache-Frame : (pkg : PackageInfo) → Runs (Frame P) (scan_package_cache pkg)
  unfolding scan_package_cache
  scan_package_cache-Frame pkg = search (frames, scan_candidates-Frame) depth 20
