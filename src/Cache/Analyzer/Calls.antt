-- ===== src/Cache/Analyzer/Calls.antt =====
-- The analysis removes no file and leaves the configuration and the engine alone.
use fresh_core_native.Prelude.{ℕ, Bytes, List, [], ◌∷◌}
use fresh_core_native.CacheData.{CacheDirInfo, PackageState}
use fresh_core_native.Os.{Env}
use fresh_core_native.Sys.Monad.{Runs}
use fresh_core_native.Sys.Fuel.{Prog-bind, Prog-if, Prog-return}
use fresh_core_native.Sys.Frame.{Frame, Frame-IsPreorder, frames}
use fresh_core_native.StateStorage.Calls.{
  get_current_time_ms-Frame, get_package_state-Frame, update_package_state-Frame,
  save_state_atomic-Frame,
}
use fresh_core_native.Cache.Policy.Calls.{should_clean_cache-Frame}
use fresh_core_native.Cache.Scanner.Calls.{calculate_cache_size-Frame}
use fresh_core_native.Cache.Analyzer.{measure_dir, analyze_dirs, analyze_caches}

module _ ⦃env : Env⦄ {P : Bytes → Type 0} where
  measure_dir-Frame :
      (fuel now : ℕ) (dir : CacheDirInfo) (state : PackageState)
      → Runs (Frame P) (measure_dir fuel now dir state)
  unfolding measure_dir
  measure_dir-Frame fuel now dir state =
      search
        (frames, calculate_cache_size-Frame, update_package_state-Frame, should_clean_cache-Frame)
        depth 30

  analyze_dirs-Frame :
      (fuel now : ℕ) (dirs : List CacheDirInfo) → Runs (Frame P) (analyze_dirs fuel now dirs)
  unfolding analyze_dirs
  analyze_dirs-Frame fuel now [] = search frames
  analyze_dirs-Frame fuel now (dir ∷ dirs) =
      Prog-bind _ _ (search (frames, get_package_state-Frame)) λ state.
        Prog-if _ _ _ (analyze_dirs-Frame fuel now dirs) (
          Prog-bind _ _ (measure_dir-Frame fuel now dir state)
            λ found. Prog-bind _ _ (analyze_dirs-Frame fuel now dirs) λ targets. Prog-return _)

  pub analyze_caches-Frame :
      (fuel : ℕ) (dirs : List CacheDirInfo) → Runs (Frame P) (analyze_caches fuel dirs)
  unfolding analyze_caches
  analyze_caches-Frame fuel dirs =
      search (frames, get_current_time_ms-Frame, analyze_dirs-Frame, save_state_atomic-Frame) depth
        30
