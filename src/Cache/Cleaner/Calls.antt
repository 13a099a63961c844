-- ===== src/Cache/Cleaner/Calls.antt =====
-- What the cleaner removes: the directory that it is called for and paths below it, and for a cache
-- directory only paths below it.
use fresh_core_native.Prelude.{
  ℕ, zero, suc, Bytes, join, Bool, true, false, Option, none, some, List, [], ◌∷◌,
}
use fresh_core_native.CacheData.{CacheDirInfo}
use fresh_core_native.Os.{Env, Stat}
use fresh_core_native.Sys.Monad.{Runs}
use fresh_core_native.Sys.Fuel.{Prog, Prog-bind, Prog-if, Prog-lift, Prog-return}
use fresh_core_native.Sys.Frame.{Frame, Frame-IsPreorder, frames}
use fresh_core_native.Logging.Calls.{log-Frame}
use fresh_core_native.Filesystem.Calls.{
  lstat-Frame, get_directory_children-Frame, safe_remove-Frame,
}
use fresh_core_native.Power.Idle.Calls.{evaluate_idle_state-Frame}
use fresh_core_native.Diagnostics.Calls.{start_batch-Frame, end_batch-Frame}
use fresh_core_native.StateStorage.Calls.{
  get_current_time_ms-Frame, get_package_state-Frame, update_package_state-Frame,
  save_state_atomic-Frame,
}
use fresh_core_native.Cache.Cleaner.{
  Batch, remove_child, roll_if, remove_round, go_on_with, remove_children, finish, remove_listed,
  remove_recursive_batched, clean_children, record_cleanup, clean_listed, clean_directory_safely,
}

module _ ⦃env : Env⦄ {P : Bytes → Type 0}
    (below : (path name : Bytes) → P path → P (join path name)) where
  roll_if-Frame : (batch : Option Batch) → Runs (Frame P) (roll_if batch)
  unfolding roll_if
  roll_if-Frame none = search frames
  roll_if-Frame (some batch) = search (frames, start_batch-Frame, end_batch-Frame) depth 30

  go_on_with-Frame :
      (rest : Batch → Prog (Option Batch)) (after : Option Batch)
      → ((batch : Batch) → Runs (Frame P) (rest batch))
      → Runs (Frame P) (go_on_with rest after)
  unfolding go_on_with
  go_on_with-Frame rest none h = search frames
  go_on_with-Frame rest (some batch) h = h batch

  finish-Frame : (path : Bytes) (batch : Option Batch) → P path → Runs (Frame P) (finish path batch)
  unfolding finish
  finish-Frame path none p = search frames
  finish-Frame path (some batch) p = search (frames, end_batch-Frame, safe_remove-Frame) depth 20

  module _ (inner : Bytes → Prog Bool)
      (keeps : (path : Bytes) → P path → Runs (Frame P) (inner path)) where
    remove_child-Frame :
        (path : Bytes) (st : Option Stat) (batch : Batch)
        → P path
        → Runs (Frame P) (remove_child inner path st batch)
    unfolding remove_child
    remove_child-Frame path none batch p = search frames
    remove_child-Frame path (some st) batch p = search (frames, keeps, safe_remove-Frame) depth 20

    remove_round-Frame :
        (path : Bytes) (batch : Batch) → P path → Runs (Frame P) (remove_round inner path batch)
    unfolding remove_round
    remove_round-Frame path batch p =
        search
          (
            frames, evaluate_idle_state-Frame, log-Frame, lstat-Frame, remove_child-Frame,
            roll_if-Frame,
          )
          depth 30

    remove_children-Frame :
        (path : Bytes) (children : List Bytes) (batch : Batch)
        → P path
        → Runs (Frame P) (remove_children inner path children batch)
    unfolding remove_children
    remove_children-Frame path [] batch p = search frames
    remove_children-Frame path (child ∷ children) batch p =
        Prog-bind _ _ (remove_round-Frame (join path child) batch (below path child p))
          λ after. go_on_with-Frame _ after (λ next. remove_children-Frame path children next p)

    remove_listed-Frame :
        (path : Bytes) (children : Option (List Bytes))
        → P path
        → Runs (Frame P) (remove_listed inner path children)
    unfolding remove_listed
    remove_listed-Frame path none p = search frames
    remove_listed-Frame path (some children) p =
        search (frames, start_batch-Frame, remove_children-Frame path children _ p, finish-Frame)
          depth 20

  pub remove_recursive_batched-Frame :
      (fuel : ℕ) (path : Bytes) → P path → Runs (Frame P) (remove_recursive_batched fuel path)
  unfolding remove_recursive_batched
  remove_recursive_batched-Frame zero path p = search frames
  remove_recursive_batched-Frame (suc fuel) path p =
      Prog-bind _ _ (search (frames, get_directory_children-Frame))
        λ children. remove_listed-Frame _ (remove_recursive_batched-Frame fuel) path children p

  clean_children-Frame :
      (fuel : ℕ) (target : CacheDirInfo) (children : List Bytes)
      → ((name : Bytes) → P (join target.path name))
      → Runs (Frame P) (clean_children fuel target children)
  unfolding clean_children
  clean_children-Frame fuel target [] p = search frames
  clean_children-Frame fuel target (child ∷ children) p =
      Prog-bind _ _ (remove_recursive_batched-Frame fuel (join target.path child) (p child))
        λ removed.
          Prog-if _ _ _ (Prog-bind _ _ (Prog-lift _ (log-Frame _ _ _)) (λ _. Prog-return false))
            (clean_children-Frame fuel target children p)

  record_cleanup-Frame : (target : CacheDirInfo) → Runs (Frame P) (record_cleanup target)
  unfolding record_cleanup
  record_cleanup-Frame target =
      search
        (
          frames, log-Frame, get_package_state-Frame, get_current_time_ms-Frame,
          update_package_state-Frame, save_state_atomic-Frame,
        )
        depth 40

  clean_listed-Frame :
      (fuel : ℕ) (target : CacheDirInfo) (children : Option (List Bytes))
      → ((name : Bytes) → P (join target.path name))
      → Runs (Frame P) (clean_listed fuel target children)
  unfolding clean_listed
  clean_listed-Frame fuel target none p = search frames
  clean_listed-Frame fuel target (some children) p =
      Prog-bind _ _ (clean_children-Frame fuel target children p) λ done.
        Prog-if _ _ _ (Prog-bind _ _ (record_cleanup-Frame target) (λ _. Prog-return true))
          (Prog-return false)

  -- For any kind of paths that holds of a path's children where it holds of the path, and that holds
  -- of all children of the target: cleaning the target calls rmdir and unlink on paths of that kind
  -- only, and leaves the configuration and the state of the engine as they were.
  pub clean_directory_safely-Frame :
      (fuel : ℕ) (target : CacheDirInfo)
      → ((name : Bytes) → P (join target.path name))
      → Runs (Frame P) (clean_directory_safely fuel target)
  unfolding clean_directory_safely
  clean_directory_safely-Frame fuel target p =
      search
        (
          frames,
          log-Frame,
          get_directory_children-Frame,
          λ (children : Option (List Bytes)). clean_listed-Frame fuel target children p,
        )
        depth 20
