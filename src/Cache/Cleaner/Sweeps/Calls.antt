-- ===== src/Cache/Cleaner/Sweeps/Calls.antt =====
-- What the sweeps remove: paths below the three directories that they go through.
use fresh_core_native.Prelude.{ℕ, Bytes, join, List, [], ◌∷◌, Option, none, some, All}
use fresh_core_native.Os.{Env}
use fresh_core_native.Sys.Monad.{Runs}
use fresh_core_native.Sys.Fuel.{Prog-bind, Prog-if, Prog-return, Prog-lift}
use fresh_core_native.Sys.Frame.{Frame, Frame-IsPreorder, frames}
use fresh_core_native.Logging.Calls.{log-Frame}
use fresh_core_native.Filesystem.Calls.{get_directory_children-Frame}
use fresh_core_native.Power.Idle.Calls.{evaluate_idle_state-Frame}
use fresh_core_native.Cache.Roots.{
  IsRoot, IsCleanable, IsCleanable-root, IsCleanable-join, tombstones, dropbox, tmp,
}
use fresh_core_native.Cache.Cleaner.Calls.{remove_recursive_batched-Frame}
use fresh_core_native.Cache.Cleaner.Sweeps.{
  paths_to_sweep, report_trim, native_fstrim, sweep_children, sweep_listed, sweep_paths,
  run_system_maintenance_sweeps,
}

module _ ⦃env : Env⦄ where
  report_trim-Frame :
      (path : Bytes) (trimmed : Option ℕ) → Runs (Frame IsCleanable) (report_trim path trimmed)
  unfolding report_trim
  report_trim-Frame path none = search frames
  report_trim-Frame path (some n) = search (frames, log-Frame)

  native_fstrim-Frame : (path : Bytes) → Runs (Frame IsCleanable) (native_fstrim path)
  unfolding native_fstrim
  native_fstrim-Frame path =
      search (frames, log-Frame, evaluate_idle_state-Frame, report_trim-Frame) depth 40

  sweep_children-Frame :
      (fuel : ℕ) (path : Bytes) (children : List Bytes)
      → IsRoot path
      → Runs (Frame IsCleanable) (sweep_children fuel path children)
  unfolding sweep_children
  sweep_children-Frame fuel path [] r = search frames
  sweep_children-Frame fuel path (child ∷ children) r =
      Prog-bind _ _
        (Prog-if _ _ _ (Prog-return _) (
          remove_recursive_batched-Frame IsCleanable-join fuel (join path child)
            (IsCleanable-root path child r)))
        λ _. sweep_children-Frame fuel path children r

  sweep_listed-Frame :
      (fuel : ℕ) (path : Bytes) (children : Option (List Bytes))
      → IsRoot path
      → Runs (Frame IsCleanable) (sweep_listed fuel path children)
  unfolding sweep_listed
  sweep_listed-Frame fuel path none r = search frames
  sweep_listed-Frame fuel path (some children) r = sweep_children-Frame fuel path children r

  sweep_paths-Frame :
      (fuel : ℕ) (paths : List Bytes)
      → All IsRoot paths
      → Runs (Frame IsCleanable) (sweep_paths fuel paths)
  unfolding sweep_paths
  sweep_paths-Frame fuel [] r = search (frames, log-Frame)
  sweep_paths-Frame fuel (path ∷ paths) r =
      Prog-bind _ _ (Prog-lift _ evaluate_idle_state-Frame) λ idle.
        Prog-if _ _ _ (Prog-lift _ (log-Frame _ _ _)) (
          Prog-bind _ _ (Prog-lift _ (get_directory_children-Frame path)) λ children.
            Prog-bind _ _ (sweep_listed-Frame fuel path children r.0)
              λ _. sweep_paths-Frame fuel paths r.1)

  paths_to_sweep-IsRoot : All IsRoot paths_to_sweep
  unfolding paths_to_sweep
  paths_to_sweep-IsRoot = (tombstones, (dropbox, (tmp, tt)))

  pub run_system_maintenance_sweeps-Frame :
      (fuel : ℕ) → Runs (Frame IsCleanable) (run_system_maintenance_sweeps fuel)
  unfolding run_system_maintenance_sweeps
  run_system_maintenance_sweeps-Frame fuel = Prog-bind _ _ (Prog-lift _ (log-Frame _ _ _)) λ _.
      Prog-bind _ _ (native_fstrim-Frame _) λ _.
        Prog-bind _ _ (native_fstrim-Frame _)
          λ _. sweep_paths-Frame fuel paths_to_sweep paths_to_sweep-IsRoot
