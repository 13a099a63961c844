-- ===== src/Cache/Scanner.antt =====
-- cache/package_scanner.cpp: the sizes; `ScanPackageCache` is in the child.
pub mod Candidates
pub mod Calls
pub mod Trees
pub mod Termination
use fresh_core_native.Prelude.{
  ℕ, zero, suc, ◌+◌, Bytes, bytes, join, starts_with, u64, Bool, true, false, not, ◌&&◌, Option,
  none, some, List, [], ◌∷◌, ◌++◌, if◌then◌else◌,
}
use fresh_core_native.CacheData.{PackageInfo, CacheDirInfo}
use fresh_core_native.Config.{Configuration}
use fresh_core_native.Os.{Env, Stat}
use fresh_core_native.Sys.Monad.{St, pure, gets}
use fresh_core_native.Sys.Monad
use fresh_core_native.Sys.Fuel.{Prog, return, out_of_fuel, lift, ◌>>=◌, ◌>>◌}
use fresh_core_native.Filesystem.{get_directory_children, lstat}

module _ ⦃env : Env⦄ where
  -- What one child adds to the size; `inner` is the recursive call.
  child_size : (Bytes → Prog ℕ) → Bytes → Option Stat → Prog ℕ
  child_size inner child_path none = return 0
  child_size inner child_path (some st) = if st.is_dir then inner child_path else return st.size

  sum_children : (Bytes → Prog ℕ) → Bytes → ℕ → List Bytes → Prog ℕ
  unfolding child_size
  sum_children inner dir_path size [] = return size
  sum_children inner dir_path size (child ∷ children) = do
    st ← lift (lstat (join dir_path child))
    more ← child_size inner (join dir_path child) st
    sum_children inner dir_path (u64 (size + more)) children

  size_of_children : (Bytes → Prog ℕ) → Bytes → Option (List Bytes) → Prog ℕ
  unfolding sum_children
  size_of_children inner dir_path none = return 0
  size_of_children inner dir_path (some children) = sum_children inner dir_path 0 children

  -- Fuel for the depth of the directory.
  unfoldable pub get_directory_size : ℕ → Bytes → Prog ℕ
  unfolding size_of_children
  get_directory_size zero dir_path = out_of_fuel
  get_directory_size (suc fuel) dir_path = do
    children ← lift (get_directory_children dir_path)
    size_of_children (get_directory_size fuel) dir_path children

  -- The struct that the reference names, with its size.
  unfoldable pub calculate_cache_size : ℕ → CacheDirInfo → Prog CacheDirInfo
  calculate_cache_size fuel dir =
      if not dir.size_calculated
      then (do
        size ← get_directory_size fuel dir.path
        return (record dir { size_bytes = size; size_calculated = true }))
      else return dir
