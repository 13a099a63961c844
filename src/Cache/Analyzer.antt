-- ===== src/Cache/Analyzer.antt =====
-- cache/cache_analyzer.cpp. The sizes that `AnalyzeCaches` writes into its argument are those of the
-- targets' copies; its caller drops the argument.
pub mod Calls
pub mod Ranks
pub mod Termination
pub mod Order
pub mod Roots
pub mod Targets
use fresh_core_native.Prelude.{
  ℕ, ◌+◌, ◌-◌, ◌*◌, ◌/◌, u32, Bytes, Bool, true, false, not, ◌&&◌, Option, none, some, List, [],
  ◌∷◌, ltb, if◌then◌else◌,
}
use fresh_core_native.CacheData.{PackageState, CacheDirInfo, MaintenanceTarget}
use fresh_core_native.Os.{Env}
use fresh_core_native.Sys.Monad.{pure}
use fresh_core_native.Sys.Fuel.{Prog, return, lift, ◌>>=◌, ◌>>◌}
use fresh_core_native.StateStorage.{
  get_current_time_ms, get_package_state, update_package_state, save_state_atomic,
}
use fresh_core_native.Cache.Policy.{should_clean_cache}
use fresh_core_native.Cache.Scanner.{calculate_cache_size}

-- 6 * 60 * 60 * 1000ULL and 500ULL * 1024ULL * 1024ULL
abbrev pub min_cleanup_interval_ms : ℕ
min_cleanup_interval_ms = 21600000

abbrev pub massive_growth : ℕ
massive_growth = 524288000

-- The package was cleaned a short while ago and does not grow fast: `continue`.
unfoldable pub in_cooldown : ℕ → PackageState → Bool
in_cooldown now state =
    ltb state.last_cleanup_ms now
    && ltb (now - state.last_cleanup_ms) min_cleanup_interval_ms
    && ltb state.growth_rate_bytes_per_day massive_growth

abbrev pub time_diff_days : ℕ → PackageState → ℕ
time_diff_days now state =
    (if ltb state.last_scan_ms now then now - state.last_scan_ms else 0) / 86400000

-- The growth rate is a uint32_t; where no day has passed or the directory shrank it stays.
unfoldable pub growth_rate : ℕ → ℕ → PackageState → ℕ
growth_rate now size state =
    if ltb 0 (time_diff_days now state) && ltb state.last_size_bytes size
    then u32 ((size - state.last_size_bytes) / time_diff_days now state)
    else state.growth_rate_bytes_per_day

unfoldable pub scanned_state : ℕ → ℕ → PackageState → PackageState
unfolding growth_rate
scanned_state now size state = record state {
  last_scan_ms = now;
  last_size_bytes = size;
  growth_rate_bytes_per_day = growth_rate now size state;
}

unfoldable pub priority_of : ℕ → PackageState → ℕ
priority_of size state =
    1
    + (if ltb 1073741824 size then 2 else if ltb 524288000 size then 1 else 0)
    + (if ltb 262144000 state.growth_rate_bytes_per_day then 1 else 0)

abbrev pub push_if : Bool → MaintenanceTarget → List MaintenanceTarget → List MaintenanceTarget
push_if true target targets = target ∷ targets
push_if false target targets = targets

-- The comparison for std::sort.
unfoldable pub is_before : MaintenanceTarget → MaintenanceTarget → Bool
is_before a b = ltb b.priority a.priority

module _ ⦃env : Env⦄ where
  -- The body of the loop behind the cooldown: whether `dir`, once measured, is a target.
  measure_dir : ℕ → ℕ → CacheDirInfo → PackageState → Prog (Bool × MaintenanceTarget)
  unfolding scanned_state priority_of
  measure_dir fuel now dir state = do
    measured ← calculate_cache_size fuel dir
    lift (update_package_state dir.pkg_name (scanned_state now measured.size_bytes state))
    clean ← lift (should_clean_cache measured.size_bytes)
    return (
      clean,
      record {
        cache_dir = measured;
        priority = priority_of measured.size_bytes (scanned_state now measured.size_bytes state);
      },
    )

  analyze_dirs : ℕ → ℕ → List CacheDirInfo → Prog (List MaintenanceTarget)
  unfolding measure_dir in_cooldown
  analyze_dirs fuel now [] = return []
  analyze_dirs fuel now (dir ∷ dirs) = do
    state ← lift (get_package_state dir.pkg_name)
    if in_cooldown now state then analyze_dirs fuel now dirs else (do
      found ← measure_dir fuel now dir state
      targets ← analyze_dirs fuel now dirs
      return (push_if found.0 found.1 targets))

  unfoldable pub analyze_caches : ℕ → List CacheDirInfo → Prog (List MaintenanceTarget)
  unfolding analyze_dirs
  analyze_caches fuel scanned_dirs = do
    now ← lift get_current_time_ms
    targets ← analyze_dirs fuel now scanned_dirs
    lift save_state_atomic
    return (env.sort is_before targets)
