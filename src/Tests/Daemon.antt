-- ===== src/Tests/Daemon.antt =====
-- The theorems on the start, the limits and the sensors at concrete inputs.
use fresh_core_native.Prelude.{
  All, ltb, length, if◌then◌else◌, ℕ, ◌%◌, ◌<◌, ◌≡◌, refl, Bytes, bytes, bytes_eq, true, none, some,
  List, [], ◌∷◌, if◌then◌else◌, arith,
}
use fresh_core_native.CacheData.{PackageState, CacheDirInfo}
use fresh_core_native.Os.{Env}
use fresh_core_native.Sys.{Sys, initial}
use fresh_core_native.Sys.Monad.{Emits}
use fresh_core_native.Sys.Monad
use fresh_core_native.Sys.Fuel.{OnSome}
use fresh_core_native.Sys.Finishes.{Finishes}
use fresh_core_native.StateImage.{calculate_checksum, hash_package_name}
use fresh_core_native.StateImage.RoundTrip.{byte_sum, calculate_checksum-byte_sum}
use fresh_core_native.StateStorage.{get_package_state}
use fresh_core_native.StateStorage.Table.{latest, updates, get_package_state-latest}
use fresh_core_native.Cache.Policy.{threshold_bytes}
use fresh_core_native.Cache.Analyzer.{analyze_caches}
use fresh_core_native.Cache.Analyzer.Targets.{AreChosen, analyze_caches_chooses}
use fresh_core_native.Diagnostics.{end_batch}
use fresh_core_native.Diagnostics.Budget.{
  Adds, all_files, all_bytes, end_batches, end_batches_within_limit,
}
use fresh_core_native.Power.Idle.{required_delay_sec, evaluate_idle_state}
use fresh_core_native.Power.Idle
use fresh_core_native.Power.Idle.Looks.{Look, IsBefore}
use fresh_core_native.Power.Idle.Delay.{
  look, Evaluated, begun, evaluated, Waited, time_now, evaluate_idle_state_waits,
}
use fresh_core_native.Power.Screen.{is_screen_on}
use fresh_core_native.Power.Battery.{is_battery_safe}
use fresh_core_native.Power.Thermal.{is_thermal_safe, too_hot}
use fresh_core_native.Power.Pressure.{is_memory_pressure_safe}
use fresh_core_native.Power.Activity.{is_heavy_foreground_activity}
use fresh_core_native.Logging.{log}
use fresh_core_native.Streams.{stream_u64, stream_int}
use fresh_core_native.Tweaks.Boot.{apply_boot_tweaks}
use fresh_core_native.Tweaks.Boot.Writes.{MayTweak, apply_boot_tweaks_writes}
use fresh_core_native.Tweaks.Boot.Tally.{Reports, apply_boot_tweaks_counts}
use fresh_core_native.Scheduler.{Turn, ready, signal, interrupted}
use fresh_core_native.Startup.{main_program}
use fresh_core_native.Startup.Removal.{main_program-Finishes}
use fresh_core_native.Tests.Device.{device, device-PathLimit, insertion_sort-Sorts}

abbrev some_turns : List Turn
some_turns = ready (true ∷ []) ∷ interrupted ∷ signal ∷ []

main_program-Finishes_example : Finishes (main_program ⦃env = device⦄ 4097 some_turns)
main_program-Finishes_example =
    main_program-Finishes ⦃env = device⦄ device-PathLimit 4097 (omega arith) some_turns

abbrev off_file : Bytes
off_file = bytes "enabled=0"

abbrev off_device : Env
off_device = record device { file = λ h path. some off_file }

apply_boot_tweaks_writes_example :
    Emits (MayTweak initial.logger.path) initial (apply_boot_tweaks ⦃env = device⦄ initial).1
apply_boot_tweaks_writes_example = apply_boot_tweaks_writes ⦃env = device⦄ initial

apply_boot_tweaks_counts_example :
    Reports ⦃env = device⦄ initial (apply_boot_tweaks ⦃env = device⦄ initial).1
apply_boot_tweaks_counts_example = apply_boot_tweaks_counts ⦃env = device⦄ initial

calculate_checksum-byte_sum_example :
    calculate_checksum (200 ∷ 100 ∷ []) ≡ byte_sum (200 ∷ 100 ∷ []) % 4294967296
calculate_checksum-byte_sum_example = calculate_checksum-byte_sum (200 ∷ 100 ∷ [])

abbrev state_with_hash : ℕ → PackageState
state_with_hash n = record {
  hash = n;
  last_scan_ms = 0;
  last_cleanup_ms = 0;
  last_size_bytes = 0;
  cleanup_count = 0;
  growth_rate_bytes_per_day = 0;
}

abbrev two_updates : List (Bytes × PackageState)
two_updates = (97 ∷ [], state_with_hash 1) ∷ (97 ∷ [], state_with_hash 2) ∷ []

get_package_state-latest_example :
    (get_package_state ⦃env = device⦄ (97 ∷ []) (updates ⦃env = device⦄ two_updates initial).1).0
    ≡ latest
        (hash_package_name (97 ∷ []))
        two_updates
        (get_package_state ⦃env = device⦄ (97 ∷ []) initial).0
get_package_state-latest_example =
    get_package_state-latest ⦃env = device⦄ (97 ∷ []) two_updates initial

abbrev two_batches : List (ℕ × ℕ)
two_batches = (1, 100) ∷ (2, 50) ∷ []

small_batches : (end_batches ⦃env = device⦄ two_batches initial).0 ≡ true
unfolding end_batches end_batch Monad.◌>>=◌ log stream_u64 bytes
small_batches = refl

end_batches_within_limit_example :
    Adds
      (all_files two_batches)
      (all_bytes two_batches)
      initial
      (end_batches ⦃env = device⦄ two_batches initial).1
end_batches_within_limit_example =
    end_batches_within_limit ⦃env = device⦄ two_batches initial small_batches (omega arith)

abbrev large_dir : CacheDirInfo
large_dir = record {
  path = bytes "/c";
  pkg_name = bytes "c";
  size_bytes = 2000000000;
  size_calculated = true;
}

analyze_caches_chooses_example :
    OnSome
      (AreChosen (threshold_bytes initial))
      (analyze_caches ⦃env = device⦄ 4097 (large_dir ∷ []) initial).0
analyze_caches_chooses_example =
    analyze_caches_chooses ⦃env = device⦄ insertion_sort-Sorts 4097 (large_dir ∷ []) initial

-- The backlight is off and the battery full enough; nothing else can be read.
abbrev dark_device : Env
dark_device = record device {
  file = λ h path.
      if bytes_eq path (98 ∷ [])
      then some (48 ∷ [])
      else if bytes_eq path (99 ∷ [])
      then some (57 ∷ 48 ∷ [])
      else none;
}

-- The clock goes from 1000 to 5000 seconds after two calls.
abbrev ticking : Env
ticking = record dark_device {
  monotonic = λ h. record { tv_sec = if ltb 2 (length h) then 5000 else 1000; tv_nsec = 0 };
}

abbrev just_dark : Sys
just_dark = record initial {
  screen = record { supported = true; backlight_path = 98 ∷ [] };
  battery = record { capacity_path = 99 ∷ []; status_path = 100 ∷ [] };
  thermal_zones = (101 ∷ []) ∷ [];
}

abbrev long_dark : Sys
long_dark = (evaluate_idle_state ⦃env = ticking⦄ just_dark).1

abbrev first_looks : List Look
first_looks = look ⦃env = ticking⦄ just_dark ∷ []

first_looks-Evaluated : Evaluated ⦃env = ticking⦄ first_looks long_dark
first_looks-Evaluated = evaluated (begun refl)

long_dark-idle : (evaluate_idle_state ⦃env = ticking⦄ long_dark).0 ≡ Idle.idle_candidate
unfolding evaluate_idle_state Monad.◌>>=◌ is_screen_on bytes_eq stream_int is_battery_safe
    is_thermal_safe too_hot is_memory_pressure_safe is_heavy_foreground_activity
long_dark-idle = refl

now-IsBefore :
    All
      (IsBefore (time_now ⦃env = ticking⦄ (is_screen_on ⦃env = ticking⦄ long_dark).1))
      (look ⦃env = ticking⦄ long_dark ∷ first_looks)
unfolding evaluate_idle_state Monad.◌>>=◌ is_screen_on bytes_eq stream_int is_battery_safe
    is_thermal_safe too_hot is_memory_pressure_safe is_heavy_foreground_activity
now-IsBefore = ((omega arith, omega arith), ((omega arith, omega arith), tt))

now_small :
    time_now ⦃env = ticking⦄ (is_screen_on ⦃env = ticking⦄ long_dark).1 < 18446744073709551616
unfolding evaluate_idle_state Monad.◌>>=◌ is_screen_on bytes_eq stream_int is_battery_safe
    is_thermal_safe too_hot is_memory_pressure_safe is_heavy_foreground_activity
now_small = omega arith

evaluate_idle_state_waits_example :
    Waited ⦃env = ticking⦄ long_dark first_looks
      (time_now ⦃env = ticking⦄ (is_screen_on ⦃env = ticking⦄ long_dark).1)
evaluate_idle_state_waits_example =
    evaluate_idle_state_waits ⦃env = ticking⦄ first_looks long_dark first_looks-Evaluated
      now-IsBefore now_small long_dark-idle
