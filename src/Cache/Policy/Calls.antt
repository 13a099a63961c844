-- ===== src/Cache/Policy/Calls.antt =====
-- The policy removes no file and leaves the configuration and the engine alone.
use fresh_core_native.Prelude.{ℕ, Bytes}
use fresh_core_native.Os.{Env}
use fresh_core_native.Sys.Monad.{Runs}
use fresh_core_native.Sys.Frame.{Frame, Frame-IsPreorder, frames}
use fresh_core_native.Cache.Policy.{is_valid_cache_path, should_clean_cache}

module _ ⦃env : Env⦄ {P : Bytes → Type 0} where
  pub is_valid_cache_path-Frame :
      (path data_dir : Bytes) → Runs (Frame P) (is_valid_cache_path path data_dir)
  unfolding is_valid_cache_path
  is_valid_cache_path-Frame path data_dir = search frames depth 40

  pub should_clean_cache-Frame : (size : ℕ) → Runs (Frame P) (should_clean_cache size)
  unfolding should_clean_cache
  should_clean_cache-Frame size = search frames
