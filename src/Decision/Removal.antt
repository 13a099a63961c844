-- ===== src/Decision/Removal.antt =====
-- What a whole evaluation removes: only paths strictly below one of the roots.
use fresh_core_native.Prelude.{
  ℕ, Bool, true, false, List, [], ◌∷◌, ◌++◌, Option, none, some, All, All-append,
}
use fresh_core_native.CacheData.{PackageInfo, CacheDirInfo, MaintenanceTarget}
use fresh_core_native.Engine.{
  EngineState, boot, active, screen_off, idle_candidate, deep_idle, maintenance, aborting,
  error_backoff,
}
use fresh_core_native.Os.{Env}
use fresh_core_native.Sys.{Sys}
use fresh_core_native.Sys.Monad.{Runs}
use fresh_core_native.Sys.Fuel.{
  Prog-bind, Prog-bind_knowing, Prog-if, Prog-return, Prog-lift, Returns, Returns-return,
  Returns-if, Returns-bind, Returns-any, Returns-lift, OnSome,
}
use fresh_core_native.Sys.Frame.{
  Steady, Steady-IsPreorder, Frame, Frame-IsPreorder, Runs-Steady, steadies,
}
use fresh_core_native.Logging.Calls.{log-Frame}
use fresh_core_native.Packages.Calls.{get_installed_packages-Frame}
use fresh_core_native.Power.Idle.{IdleState}
use fresh_core_native.Power.Screen.Calls.{is_screen_on-Frame}
use fresh_core_native.Power.Idle.Calls.{evaluate_idle_state-Frame}
use fresh_core_native.Tweaks.Calls.{optimize_doze-Frame}
use fresh_core_native.Cache.Roots.{
  IsCleanable, IsCleanable-root, IsCleanable-join, DirIsRoot, TargetIsRoot,
}
use fresh_core_native.Cache.Scanner.Candidates.Calls.{scan_package_cache-Frame}
use fresh_core_native.Cache.Scanner.Candidates.Roots.{scan_package_cache-roots}
use fresh_core_native.Cache.Analyzer.Calls.{analyze_caches-Frame}
use fresh_core_native.Cache.Analyzer.Roots.{analyze_caches-roots}
use fresh_core_native.Cache.Analyzer.Order.{Sorts}
use fresh_core_native.Cache.Cleaner.Calls.{clean_directory_safely-Frame}
use fresh_core_native.Cache.Cleaner.Sweeps.Calls.{run_system_maintenance_sweeps-Frame}
use fresh_core_native.Decision.Calls.{transition_to-Steady, wake-Steady}
use fresh_core_native.Decision.{
  scan_packages, clean_targets, finish_maintenance, clean_scanned, perform_maintenance, advance,
  evaluate_and_transition, get_current_state,
}

-- Every removal is of a cleanable path, and the configuration stays.
abbrev pub Cleans : Sys → Sys → Type 0
Cleans = Steady IsCleanable

module _ ⦃env : Env⦄ where
  scan_packages-Frame :
      (packages : List PackageInfo) (dirs : List CacheDirInfo)
      → Runs (Frame IsCleanable) (scan_packages packages dirs)
  unfolding scan_packages
  scan_packages-Frame [] dirs = Prog-return _
  scan_packages-Frame (pkg ∷ packages) dirs = Prog-bind _ _ (Prog-lift _ is_screen_on-Frame) λ on.
      Prog-if _ _ _ (Prog-return _) (
        Prog-bind _ _ (Prog-lift _ (scan_package_cache-Frame pkg))
          λ caches. scan_packages-Frame packages (dirs ++ caches))

  scan_packages-roots :
      (packages : List PackageInfo) (dirs : List CacheDirInfo)
      → All DirIsRoot dirs
      → Returns (OnSome (All DirIsRoot)) (scan_packages packages dirs)
  unfolding scan_packages
  scan_packages-roots [] dirs r = Returns-return _ r
  scan_packages-roots (pkg ∷ packages) dirs r = Returns-bind _ _ (Returns-any _) λ on _.
      Returns-if _ _ _ (Returns-return _ tt) (
        Returns-bind _ _ (Returns-lift _ (scan_package_cache-roots pkg).at) λ caches c.
          scan_packages-roots packages (dirs ++ caches) (All-append DirIsRoot dirs caches r c))

  clean_targets-Frame :
      (fuel : ℕ) (targets : List MaintenanceTarget)
      → All TargetIsRoot targets
      → Runs (Frame IsCleanable) (clean_targets fuel targets)
  unfolding clean_targets
  clean_targets-Frame fuel [] r = Prog-return _
  clean_targets-Frame fuel (target ∷ targets) r =
      Prog-bind _ _ (Prog-lift _ evaluate_idle_state-Frame) λ idle. Prog-if _ _ _ (Prog-return _) (
        Prog-bind _ _
          (clean_directory_safely-Frame IsCleanable-join fuel target.cache_dir
            (λ name. IsCleanable-root target.cache_dir.path name r.0))
          λ cleaned.
            Prog-if _ _ _ (Prog-bind _ _ (Prog-lift _ (log-Frame _ _ _)) (λ _. Prog-return false))
              (clean_targets-Frame fuel targets r.1))

  finish_maintenance-Cleans : (done : Bool) → Runs Cleans (finish_maintenance done)
  unfolding finish_maintenance
  finish_maintenance-Cleans false = transition_to-Steady aborting
  finish_maintenance-Cleans true =
      Prog-bind _ _ (Prog-lift _ (Runs-Steady optimize_doze-Frame)) λ _. transition_to-Steady active

  module _ (sorts : Sorts env.sort) (fuel : ℕ) where
    clean_scanned-Cleans :
        (scanned : Option (List CacheDirInfo))
        → OnSome (All DirIsRoot) scanned
        → Runs Cleans (clean_scanned fuel scanned)
    unfolding clean_scanned
    clean_scanned-Cleans none r = transition_to-Steady aborting
    clean_scanned-Cleans (some dirs) r =
        Prog-bind_knowing _ _ (Runs-Steady (analyze_caches-Frame fuel dirs))
          (analyze_caches-roots sorts fuel dirs r)
          λ targets ts.
            Prog-bind _ _ (Runs-Steady (clean_targets-Frame fuel targets ts))
              finish_maintenance-Cleans

    perform_maintenance-Cleans : Runs Cleans (perform_maintenance fuel)
    unfolding perform_maintenance
    perform_maintenance-Cleans =
        Prog-bind _ _ (Runs-Steady (run_system_maintenance_sweeps-Frame fuel)) λ _.
          Prog-bind _ _ (Prog-lift _ (Runs-Steady is_screen_on-Frame)) λ on.
            Prog-if _ _ _ (transition_to-Steady aborting) (
              Prog-bind _ _ (Prog-lift _ (Runs-Steady get_installed_packages-Frame)) λ packages.
                Prog-bind_knowing _ _ (Runs-Steady (scan_packages-Frame packages []))
                  (scan_packages-roots packages [] tt) clean_scanned-Cleans)

    advance-Cleans :
        (idle : IdleState) (current : EngineState) → Runs Cleans (advance fuel idle current)
    unfolding advance
    advance-Cleans idle boot = transition_to-Steady screen_off
    advance-Cleans idle active = transition_to-Steady screen_off
    advance-Cleans idle screen_off =
        Prog-if _ _ _ (transition_to-Steady idle_candidate) (Prog-return _)
    advance-Cleans idle idle_candidate = transition_to-Steady deep_idle
    advance-Cleans idle deep_idle =
        Prog-bind _ _ (transition_to-Steady maintenance) λ _. perform_maintenance-Cleans
    advance-Cleans idle maintenance = Prog-return _
    advance-Cleans idle aborting = transition_to-Steady active
    advance-Cleans idle error_backoff = transition_to-Steady active

    pub evaluate_and_transition_removes : Runs Cleans (evaluate_and_transition fuel)
    unfolding evaluate_and_transition get_current_state
    evaluate_and_transition_removes = Prog-bind _ _ (search steadies) λ current.
        Prog-bind _ _ (Prog-lift _ (Runs-Steady evaluate_idle_state-Frame))
          λ idle. Prog-if _ _ _ (wake-Steady current) (advance-Cleans idle current)
