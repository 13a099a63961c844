-- ===== src/Decision/Termination.antt =====
-- A whole evaluation ends.
use fresh_core_native.Prelude.{ℕ, ◌<◌, Bool, true, false, List, [], ◌∷◌, ◌++◌, Option, none, some}
use fresh_core_native.CacheData.{PackageInfo, CacheDirInfo, MaintenanceTarget}
use fresh_core_native.Engine.{
  EngineState, boot, active, screen_off, idle_candidate, deep_idle, maintenance, aborting,
  error_backoff,
}
use fresh_core_native.Os.{Env}
use fresh_core_native.Sys.Finishes.{
  Finishes, Finishes-bind, Finishes-lift, Finishes-return, Finishes-if, finishes,
}
use fresh_core_native.Filesystem.Limits.{PathLimit}
use fresh_core_native.Power.Idle.{IdleState}
use fresh_core_native.Cache.Analyzer.Termination.{analyze_caches-Finishes}
use fresh_core_native.Cache.Cleaner.Termination.{clean_directory_safely-Finishes}
use fresh_core_native.Cache.Cleaner.Sweeps.Termination.{run_system_maintenance_sweeps-Finishes}
use fresh_core_native.Decision.{
  transition_to, scan_packages, clean_targets, finish_maintenance, clean_scanned,
  perform_maintenance, advance, wake, evaluate_and_transition,
}

module _ ⦃env : Env⦄ where
  transition_to-Finishes : (e : EngineState) → Finishes (transition_to e)
  unfolding transition_to
  transition_to-Finishes e = search finishes depth 10

  scan_packages-Finishes :
      (packages : List PackageInfo) (dirs : List CacheDirInfo)
      → Finishes (scan_packages packages dirs)
  unfolding scan_packages
  scan_packages-Finishes [] dirs = Finishes-return _
  scan_packages-Finishes (pkg ∷ packages) dirs = Finishes-bind _ _ (Finishes-lift _) λ on.
      Finishes-if _ _ _ (Finishes-return _) (
        Finishes-bind _ _ (Finishes-lift _)
          λ caches. scan_packages-Finishes packages (dirs ++ caches))

  finish_maintenance-Finishes : (done : Bool) → Finishes (finish_maintenance done)
  unfolding finish_maintenance
  finish_maintenance-Finishes true = search (finishes, transition_to-Finishes)
  finish_maintenance-Finishes false = transition_to-Finishes aborting

  wake-Finishes : (e : EngineState) → Finishes (wake e)
  unfolding wake
  wake-Finishes e = search (finishes, transition_to-Finishes) depth 10

module _ ⦃env : Env⦄ (limit : PathLimit env.open_dir) (fuel : ℕ) (enough : 4096 < fuel) where
  clean_targets-Finishes :
      (targets : List MaintenanceTarget) → Finishes (clean_targets fuel targets)
  unfolding clean_targets
  clean_targets-Finishes [] = Finishes-return _
  clean_targets-Finishes (target ∷ targets) = Finishes-bind _ _ (Finishes-lift _) λ idle.
      Finishes-if _ _ _ (Finishes-return _) (
        Finishes-bind _ _ (clean_directory_safely-Finishes limit fuel enough target.cache_dir)
          λ cleaned.
            Finishes-if _ _ _ (Finishes-bind _ _ (Finishes-lift _) (λ _. Finishes-return _))
              (clean_targets-Finishes targets))

  clean_scanned-Finishes :
      (scanned : Option (List CacheDirInfo)) → Finishes (clean_scanned fuel scanned)
  unfolding clean_scanned
  clean_scanned-Finishes none = transition_to-Finishes aborting
  clean_scanned-Finishes (some dirs) =
      Finishes-bind _ _ (analyze_caches-Finishes limit fuel enough dirs)
        λ targets. Finishes-bind _ _ (clean_targets-Finishes targets) finish_maintenance-Finishes

  perform_maintenance-Finishes : Finishes (perform_maintenance fuel)
  unfolding perform_maintenance
  perform_maintenance-Finishes =
      Finishes-bind _ _ (run_system_maintenance_sweeps-Finishes limit fuel enough) λ _.
        Finishes-bind _ _ (Finishes-lift _) λ on.
          Finishes-if _ _ _ (transition_to-Finishes aborting) (
            Finishes-bind _ _ (Finishes-lift _) λ packages.
              Finishes-bind _ _ (scan_packages-Finishes packages []) clean_scanned-Finishes)

  advance-Finishes : (idle : IdleState) (e : EngineState) → Finishes (advance fuel idle e)
  unfolding advance
  advance-Finishes idle boot = transition_to-Finishes screen_off
  advance-Finishes idle active = transition_to-Finishes screen_off
  advance-Finishes idle screen_off =
      Finishes-if _ _ _ (transition_to-Finishes idle_candidate) (Finishes-return _)
  advance-Finishes idle idle_candidate = transition_to-Finishes deep_idle
  advance-Finishes idle deep_idle =
      Finishes-bind _ _ (transition_to-Finishes maintenance) λ _. perform_maintenance-Finishes
  advance-Finishes idle maintenance = Finishes-return _
  advance-Finishes idle aborting = transition_to-Finishes active
  advance-Finishes idle error_backoff = transition_to-Finishes active

  -- With a fuel of 4097, one level for each byte that a path can have, an evaluation returns from
  -- every state, on every device that refuses to open paths of PATH_MAX bytes.
  pub evaluate_and_transition-Finishes : Finishes (evaluate_and_transition fuel)
  unfolding evaluate_and_transition
  evaluate_and_transition-Finishes = search (finishes, wake-Finishes, advance-Finishes) depth 10
