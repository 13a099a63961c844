-- ===== src/Config/File.antt =====
-- `LoadConfig` of config/config.cpp.
pub mod Intervals
pub mod Written
pub mod Effects
use fresh_core_native.Prelude.{
  Bytes, bytes, bytes_eq, ℤ, Bool, true, false, Option, none, some, List, [], ◌∷◌, ◌==◌,
  if◌then◌else◌,
}
use fresh_core_native.Os.{Env, Call}
use fresh_core_native.Sys.Monad.{St, pure, modify, perform, ◌>>=◌, ◌>>◌}
use fresh_core_native.Config.{Configuration, trim, lines, split_at_equals, is_true, atoi}

-- line.empty() || line[0] == '#'
abbrev pub is_comment : Bytes → Bool
is_comment [] = true
is_comment (c ∷ s) = c == b'#'

-- The keys that the chain of comparisons knows.
pub data Key : Type 0 where
  key_enabled : Key
  key_cache_threshold_mb : Key
  key_include_user_apps : Key
  key_include_system_apps : Key
  key_include_external_cache : Key
  key_idle_required : Key
  key_idle_delay_minutes : Key
  key_charging_preferred : Key
  key_minimum_battery_percent : Key
  key_thermal_protection : Key
  key_adaptive_scanning : Key
  key_logging : Key
  key_max_cleanup_mb_per_run : Key
  key_max_files_per_batch : Key
  key_max_batch_time_ms : Key

unfoldable pub key_of : Bytes → Option Key
unfolding bytes_eq bytes
key_of key =
    if bytes_eq key (bytes "enabled")
    then some key_enabled
    else if bytes_eq key (bytes "cache_threshold_mb")
    then some key_cache_threshold_mb
    else if bytes_eq key (bytes "include_user_apps")
    then some key_include_user_apps
    else if bytes_eq key (bytes "include_system_apps")
    then some key_include_system_apps
    else if bytes_eq key (bytes "include_external_cache")
    then some key_include_external_cache
    else if bytes_eq key (bytes "idle_required")
    then some key_idle_required
    else if bytes_eq key (bytes "idle_delay_minutes")
    then some key_idle_delay_minutes
    else if bytes_eq key (bytes "charging_preferred")
    then some key_charging_preferred
    else if bytes_eq key (bytes "minimum_battery_percent")
    then some key_minimum_battery_percent
    else if bytes_eq key (bytes "thermal_protection")
    then some key_thermal_protection
    else if bytes_eq key (bytes "adaptive_scanning")
    then some key_adaptive_scanning
    else if bytes_eq key (bytes "logging")
    then some key_logging
    else if bytes_eq key (bytes "max_cleanup_mb_per_run")
    then some key_max_cleanup_mb_per_run
    else if bytes_eq key (bytes "max_files_per_batch")
    then some key_max_files_per_batch
    else if bytes_eq key (bytes "max_batch_time_ms")
    then some key_max_batch_time_ms
    else none

module _ (overflow : Bytes → ℤ) where
  -- The assignment to the key's field; any other key is passed over.
  unfoldable pub assign_key : Option Key → Bytes → Configuration → Configuration
  unfolding is_true atoi
  assign_key none value c = c
  assign_key (some key_enabled) value c = record c { enabled = is_true value }
  assign_key (some key_cache_threshold_mb) value c = record c {
    cache_threshold_mb = atoi overflow value;
  }
  assign_key (some key_include_user_apps) value c = record c { include_user_apps = is_true value }
  assign_key (some key_include_system_apps) value c = record c {
    include_system_apps = is_true value;
  }
  assign_key (some key_include_external_cache) value c = record c {
    include_external_cache = is_true value;
  }
  assign_key (some key_idle_required) value c = record c { idle_required = is_true value }
  assign_key (some key_idle_delay_minutes) value c = record c {
    idle_delay_minutes = atoi overflow value;
  }
  assign_key (some key_charging_preferred) value c = record c { charging_preferred = is_true value }
  assign_key (some key_minimum_battery_percent) value c = record c {
    minimum_battery_percent = atoi overflow value;
  }
  assign_key (some key_thermal_protection) value c = record c { thermal_protection = is_true value }
  assign_key (some key_adaptive_scanning) value c = record c { adaptive_scanning = is_true value }
  assign_key (some key_logging) value c = record c { logging_debug = is_true value }
  assign_key (some key_max_cleanup_mb_per_run) value c = record c {
    max_cleanup_mb_per_run = atoi overflow value;
  }
  assign_key (some key_max_files_per_batch) value c = record c {
    max_files_per_batch = atoi overflow value;
  }
  assign_key (some key_max_batch_time_ms) value c = record c {
    max_batch_time_ms = atoi overflow value;
  }

  unfoldable pub assign_pair : Option (Bytes × Bytes) → Configuration → Configuration
  unfolding assign_key key_of trim
  assign_pair none c = c
  assign_pair (some (key, value)) c = assign_key (key_of (trim key)) (trim value) c

  unfoldable pub load_line : Bytes → Configuration → Configuration
  unfolding assign_pair trim split_at_equals
  load_line line c =
      if is_comment (trim line) then c else assign_pair (split_at_equals (trim line)) c

  unfoldable pub load_lines : List Bytes → Configuration → Configuration
  unfolding load_line
  load_lines [] c = c
  load_lines (line ∷ rest) c = load_lines rest (load_line line c)

module _ ⦃env : Env⦄ where
  load_content : Option Bytes → St Bool
  unfolding load_lines lines
  load_content none = pure false
  load_content (some content) = do
    modify (λ s. record s { config = load_lines env.atoi_overflow (lines content) s.config })
    pure true

  unfoldable pub load_config : Bytes → St Bool
  unfolding load_content
  load_config path = do
    file ← perform (Call.read_file path) (λ h. env.file h path)
    load_content file
