-- ===== src/Cache/Cleaner/Sweeps.antt =====
-- cache/cache_cleaner.cpp: `NativeFstrim` and `RunSystemMaintenanceSweeps`.
pub mod Calls
pub mod Termination
use fresh_core_native.Prelude.{
  ℕ, Bytes, bytes, contains, join, Bool, true, false, Option, none, some, List, [], ◌∷◌,
  if◌then◌else◌,
}
use fresh_core_native.Os.{Env, Call, info, warning, text, number}
use fresh_core_native.Sys.Monad.{St, pure, perform}
use fresh_core_native.Sys.Monad
use fresh_core_native.Sys.Fuel.{Prog, return, lift, ◌>>=◌, ◌>>◌}
use fresh_core_native.Logging.{log}
use fresh_core_native.Filesystem.{get_directory_children}
use fresh_core_native.Power.Idle.{evaluate_idle_state}
use fresh_core_native.Cache.Cleaner.{is_not_idle, remove_recursive_batched}

unfoldable pub paths_to_sweep : List Bytes
paths_to_sweep =
    bytes "/data/tombstones" ∷ bytes "/data/system/dropbox" ∷ bytes "/data/local/tmp" ∷ []

abbrev pub own_log : Bytes
own_log = bytes "freshcore.log"

module _ ⦃env : Env⦄ where
  report_trim : Bytes → Option ℕ → Prog (Unit {0})
  report_trim path none = return tt
  report_trim path (some trimmed) =
      lift (log info "fstrim completed on %s: %llu bytes trimmed" (text path ∷ number trimmed ∷ []))

  native_fstrim : Bytes → Prog (Unit {0})
  unfolding report_trim
  native_fstrim path = do
    idle ← lift evaluate_idle_state
    if is_not_idle idle then return tt else (do
      opened ← lift (perform (Call.open_file path) (λ h. env.open_file h path))
      if opened
          then (do
            lift (log info "Running native fstrim on %s..." (text path ∷ []))
            trimmed ← lift (perform (Call.fitrim path) (λ h. env.fitrim h path))
            report_trim path trimmed
            lift (perform (Call.close path) (λ h. tt)))
          else return tt)

  sweep_children : ℕ → Bytes → List Bytes → Prog (Unit {0})
  sweep_children fuel path [] = return tt
  sweep_children fuel path (child ∷ children) = do
    if contains own_log child then return true else remove_recursive_batched fuel (join path child)
    sweep_children fuel path children

  sweep_listed : ℕ → Bytes → Option (List Bytes) → Prog (Unit {0})
  unfolding sweep_children
  sweep_listed fuel path none = return tt
  sweep_listed fuel path (some children) = sweep_children fuel path children

  sweep_paths : ℕ → List Bytes → Prog (Unit {0})
  unfolding sweep_listed
  sweep_paths fuel [] = lift (log info "System maintenance sweeps completed." [])
  sweep_paths fuel (path ∷ paths) = do
    idle ← lift evaluate_idle_state
    if is_not_idle idle then lift (log warning "System sweeps aborted due to wake up." []) else (do
      children ← lift (get_directory_children path)
      sweep_listed fuel path children
      sweep_paths fuel paths)

  unfoldable pub run_system_maintenance_sweeps : ℕ → Prog (Unit {0})
  unfolding native_fstrim sweep_paths paths_to_sweep
  run_system_maintenance_sweeps fuel = do
    lift (log info "Starting native system maintenance sweeps..." [])
    native_fstrim (bytes "/data")
    native_fstrim (bytes "/cache")
    sweep_paths fuel paths_to_sweep
