-- ===== src/Cache/Scanner/Calls.antt =====
-- Measuring a directory removes no file and leaves the configuration and the engine alone, whatever
-- the fuel.
use fresh_core_native.Prelude.{
  ℕ, ◌+◌, u64, zero, suc, Bytes, join, List, [], ◌∷◌, Option, none, some,
}
use fresh_core_native.CacheData.{CacheDirInfo}
use fresh_core_native.Os.{Env, Stat}
use fresh_core_native.Sys.Monad.{Runs}
use fresh_core_native.Sys.Fuel.{Prog, Prog-bind}
use fresh_core_native.Sys.Frame.{Frame, Frame-IsPreorder, frames}
use fresh_core_native.Filesystem.Calls.{lstat-Frame, get_directory_children-Frame}
use fresh_core_native.Cache.Scanner.{
  child_size, sum_children, size_of_children, get_directory_size, calculate_cache_size,
}

module _ ⦃env : Env⦄ {P : Bytes → Type 0} where
  module _ (inner : Bytes → Prog ℕ) (keeps : (path : Bytes) → Runs (Frame P) (inner path)) where
    child_size-Frame : (path : Bytes) (st : Option Stat) → Runs (Frame P) (child_size inner path st)
    unfolding child_size
    child_size-Frame path none = search frames
    child_size-Frame path (some st) = search (frames, keeps)

    sum_children-Frame :
        (path : Bytes) (size : ℕ) (children : List Bytes)
        → Runs (Frame P) (sum_children inner path size children)
    unfolding sum_children
    sum_children-Frame path size [] = search frames
    sum_children-Frame path size (child ∷ children) =
        Prog-bind _ _ (search (frames, lstat-Frame)) λ st.
          Prog-bind _ _ (child_size-Frame (join path child) st)
            λ more. sum_children-Frame path (u64 (size + more)) children

    size_of_children-Frame :
        (path : Bytes) (children : Option (List Bytes))
        → Runs (Frame P) (size_of_children inner path children)
    unfolding size_of_children
    size_of_children-Frame path none = search frames
    size_of_children-Frame path (some children) = sum_children-Frame path 0 children

  get_directory_size-Frame :
      (fuel : ℕ) (path : Bytes) → Runs (Frame P) (get_directory_size fuel path)
  unfolding get_directory_size
  get_directory_size-Frame zero path = search frames
  get_directory_size-Frame (suc fuel) path =
      Prog-bind _ _ (search (frames, get_directory_children-Frame))
        λ children. size_of_children-Frame _ (get_directory_size-Frame fuel) path children

  pub calculate_cache_size-Frame :
      (fuel : ℕ) (dir : CacheDirInfo) → Runs (Frame P) (calculate_cache_size fuel dir)
  unfolding calculate_cache_size
  calculate_cache_size-Frame fuel dir = search (frames, get_directory_size-Frame) depth 20
