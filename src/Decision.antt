-- ===== src/Decision.antt =====
-- core/decision_engine.cpp, and TransitionTo and GetCurrentState of core/state.cpp.
pub mod Calls
pub mod Removal
pub mod Quiet
pub mod Graph
pub mod Termination
use mathlib.Core.Logic.{ite}
use fresh_core_native.Prelude.{
  ℕ, Bytes, Bool, true, false, not, Option, none, some, List, [], ◌∷◌, ◌++◌, if◌then◌else◌,
}
use fresh_core_native.CacheData.{PackageInfo, CacheDirInfo, MaintenanceTarget}
use fresh_core_native.Engine.{
  EngineState, boot, active, screen_off, idle_candidate, deep_idle, maintenance, aborting,
  error_backoff, EngineState-discrete, state_to_string,
}
use fresh_core_native.Os.{Env, info, warning, text}
use fresh_core_native.Sys.{Sys}
use fresh_core_native.Sys.Monad.{St, pure, gets, modify}
use fresh_core_native.Sys.Fuel.{Prog, return, lift, ◌>>=◌, ◌>>◌}
use fresh_core_native.Logging.{log}
use fresh_core_native.Packages.{get_installed_packages}
use fresh_core_native.Power.Screen.{is_screen_on}
use fresh_core_native.Power.Idle.{IdleState, evaluate_idle_state}
use fresh_core_native.Power.Idle
use fresh_core_native.Tweaks.{optimize_doze, wake_from_doze}
use fresh_core_native.Cache.Scanner.Candidates.{scan_package_cache}
use fresh_core_native.Cache.Analyzer.{analyze_caches}
use fresh_core_native.Cache.Cleaner.{is_not_idle, clean_directory_safely}
use fresh_core_native.Cache.Cleaner.Sweeps.{run_system_maintenance_sweeps}

abbrev set_engine : EngineState → Sys → Sys
set_engine e s = record s { engine = e }

unfoldable pub get_current_state : St EngineState
get_current_state = gets (λ s. s.engine)

abbrev is_idle_candidate : IdleState → Bool
is_idle_candidate Idle.idle_candidate = true
is_idle_candidate _ = false

module _ ⦃env : Env⦄ where
  change_state : EngineState → EngineState → Prog (Unit {0})
  change_state current new_state = do
    lift (
        log info "State Transition: %s -> %s"
          (text (state_to_string current) ∷ text (state_to_string new_state) ∷ []))
    lift (modify (set_engine new_state))

  unfoldable pub transition_to : EngineState → Prog (Unit {0})
  unfolding change_state
  transition_to new_state = do
    current ← lift get_current_state
    ite (EngineState-discrete current new_state) (return tt) (change_state current new_state)

  -- The loop over the packages: `none` where the screen came on.
  scan_packages : List PackageInfo → List CacheDirInfo → Prog (Option (List CacheDirInfo))
  scan_packages [] all_cache_dirs = return (some all_cache_dirs)
  scan_packages (pkg ∷ packages) all_cache_dirs = do
    on ← lift is_screen_on
    if on then return none else (do
      pkg_caches ← lift (scan_package_cache pkg)
      scan_packages packages (all_cache_dirs ++ pkg_caches))

  -- The loop over the targets: `false` where it aborts.
  clean_targets : ℕ → List MaintenanceTarget → Prog Bool
  clean_targets fuel [] = return true
  clean_targets fuel (target ∷ targets) = do
    idle ← lift evaluate_idle_state
    if is_not_idle idle then return false else (do
      cleaned ← clean_directory_safely fuel target.cache_dir
      if not cleaned
          then (do
            lift (log warning "Aborted cleaning on %s" (text target.cache_dir.path ∷ []))
            return false)
          else clean_targets fuel targets)

  finish_maintenance : Bool → Prog (Unit {0})
  unfolding transition_to
  finish_maintenance false = transition_to aborting
  finish_maintenance true = do lift optimize_doze; transition_to active

  clean_scanned : ℕ → Option (List CacheDirInfo) → Prog (Unit {0})
  unfolding clean_targets finish_maintenance
  clean_scanned fuel none = transition_to aborting
  clean_scanned fuel (some all_cache_dirs) = do
    targets ← analyze_caches fuel all_cache_dirs
    done ← clean_targets fuel targets
    finish_maintenance done

  unfoldable pub perform_maintenance : ℕ → Prog (Unit {0})
  unfolding scan_packages clean_scanned
  perform_maintenance fuel = do
    run_system_maintenance_sweeps fuel
    on ← lift is_screen_on
    if on then transition_to aborting else (do
      packages ← lift get_installed_packages
      scanned ← scan_packages packages []
      clean_scanned fuel scanned)

  -- The switch on the state, when the device is idle in some degree.
  advance : ℕ → IdleState → EngineState → Prog (Unit {0})
  unfolding transition_to perform_maintenance
  advance fuel idle boot = transition_to screen_off
  advance fuel idle active = transition_to screen_off
  advance fuel idle screen_off =
      if is_idle_candidate idle then transition_to idle_candidate else return tt
  advance fuel idle idle_candidate = transition_to deep_idle
  advance fuel idle deep_idle = do transition_to maintenance; perform_maintenance fuel
  advance fuel idle maintenance = return tt
  advance fuel idle aborting = transition_to active
  advance fuel idle error_backoff = transition_to active

  -- The screen is on.
  pub wake : EngineState → Prog (Unit {0})
  wake current =
      ite (EngineState-discrete current active) (return tt)
        (do lift wake_from_doze; transition_to active)

  unfoldable pub evaluate_and_transition : ℕ → Prog (Unit {0})
  unfolding advance wake get_current_state
  evaluate_and_transition fuel = do
    current ← lift get_current_state
    idle ← lift evaluate_idle_state
    if is_not_idle idle then wake current else advance fuel idle current
