-- ===== src/Cache/Analyzer/Termination.antt =====
-- The analysis ends.
use fresh_core_native.Prelude.{ℕ, ◌<◌, List, [], ◌∷◌}
use fresh_core_native.CacheData.{CacheDirInfo, PackageState}
use fresh_core_native.Os.{Env}
use fresh_core_native.Sys.Finishes.{
  Finishes, Finishes-bind, Finishes-lift, Finishes-return, Finishes-if, finishes,
}
use fresh_core_native.Filesystem.Limits.{PathLimit}
use fresh_core_native.Cache.Scanner.Termination.{calculate_cache_size-Finishes}
use fresh_core_native.Cache.Analyzer.{measure_dir, analyze_dirs, analyze_caches}

module _ ⦃env : Env⦄ (limit : PathLimit env.open_dir) (fuel : ℕ) (enough : 4096 < fuel) where
  measure_dir-Finishes :
      (now : ℕ) (dir : CacheDirInfo) (state : PackageState)
      → Finishes (measure_dir fuel now dir state)
  unfolding measure_dir
  measure_dir-Finishes now dir state =
      Finishes-bind _ _ (calculate_cache_size-Finishes limit fuel dir enough) λ measured.
        Finishes-bind _ _ (Finishes-lift _)
          λ _. Finishes-bind _ _ (Finishes-lift _) λ clean. Finishes-return _

  analyze_dirs-Finishes :
      (now : ℕ) (dirs : List CacheDirInfo) → Finishes (analyze_dirs fuel now dirs)
  unfolding analyze_dirs
  analyze_dirs-Finishes now [] = Finishes-return _
  analyze_dirs-Finishes now (dir ∷ dirs) = Finishes-bind _ _ (Finishes-lift _) λ state.
      Finishes-if _ _ _ (analyze_dirs-Finishes now dirs) (
        Finishes-bind _ _ (measure_dir-Finishes now dir state)
          λ found. Finishes-bind _ _ (analyze_dirs-Finishes now dirs) λ targets. Finishes-return _)

  pub analyze_caches-Finishes : (dirs : List CacheDirInfo) → Finishes (analyze_caches fuel dirs)
  unfolding analyze_caches
  analyze_caches-Finishes dirs = search (finishes, analyze_dirs-Finishes) depth 10
