-- ===== src/Config/File/Written.antt =====
-- A file that sets every key of `LoadConfig` of config/config.cpp, a line `key=value` for each.
pub mod Trim
pub mod RoundTrip
use fresh_core_native.Prelude.{Bytes, bytes, Bool, true, false, List, [], ◌∷◌, ◌++◌, ℤ}
use fresh_core_native.Config.{Configuration}
use fresh_core_native.Config.Decimal.{FitsInt, int_text}
use fresh_core_native.Config.File.{
  key_enabled, key_cache_threshold_mb, key_include_user_apps, key_include_system_apps,
  key_include_external_cache, key_idle_required, key_idle_delay_minutes, key_charging_preferred,
  key_minimum_battery_percent, key_thermal_protection, key_adaptive_scanning, key_logging,
  key_max_cleanup_mb_per_run, key_max_files_per_batch, key_max_batch_time_ms, Key,
}

unfoldable pub bool_text : Bool → Bytes
unfolding bytes
bool_text true = bytes "true"
bool_text false = bytes "false"

unfoldable pub key_text : Key → Bytes
unfolding bytes
key_text key_enabled = bytes "enabled"
key_text key_cache_threshold_mb = bytes "cache_threshold_mb"
key_text key_include_user_apps = bytes "include_user_apps"
key_text key_include_system_apps = bytes "include_system_apps"
key_text key_include_external_cache = bytes "include_external_cache"
key_text key_idle_required = bytes "idle_required"
key_text key_idle_delay_minutes = bytes "idle_delay_minutes"
key_text key_charging_preferred = bytes "charging_preferred"
key_text key_minimum_battery_percent = bytes "minimum_battery_percent"
key_text key_thermal_protection = bytes "thermal_protection"
key_text key_adaptive_scanning = bytes "adaptive_scanning"
key_text key_logging = bytes "logging"
key_text key_max_cleanup_mb_per_run = bytes "max_cleanup_mb_per_run"
key_text key_max_files_per_batch = bytes "max_files_per_batch"
key_text key_max_batch_time_ms = bytes "max_batch_time_ms"

unfoldable pub value_text : Key → Configuration → Bytes
unfolding bool_text int_text
value_text key_enabled c = bool_text c.enabled
value_text key_cache_threshold_mb c = int_text c.cache_threshold_mb
value_text key_include_user_apps c = bool_text c.include_user_apps
value_text key_include_system_apps c = bool_text c.include_system_apps
value_text key_include_external_cache c = bool_text c.include_external_cache
value_text key_idle_required c = bool_text c.idle_required
value_text key_idle_delay_minutes c = int_text c.idle_delay_minutes
value_text key_charging_preferred c = bool_text c.charging_preferred
value_text key_minimum_battery_percent c = int_text c.minimum_battery_percent
value_text key_thermal_protection c = bool_text c.thermal_protection
value_text key_adaptive_scanning c = bool_text c.adaptive_scanning
value_text key_logging c = bool_text c.logging_debug
value_text key_max_cleanup_mb_per_run c = int_text c.max_cleanup_mb_per_run
value_text key_max_files_per_batch c = int_text c.max_files_per_batch
value_text key_max_batch_time_ms c = int_text c.max_batch_time_ms

abbrev pub all_keys : List Key
all_keys =
    key_enabled ∷ key_cache_threshold_mb ∷ key_include_user_apps ∷ key_include_system_apps
    ∷ key_include_external_cache ∷ key_idle_required ∷ key_idle_delay_minutes
    ∷ key_charging_preferred ∷ key_minimum_battery_percent ∷ key_thermal_protection
    ∷ key_adaptive_scanning ∷ key_logging ∷ key_max_cleanup_mb_per_run ∷ key_max_files_per_batch
    ∷ key_max_batch_time_ms ∷ []

abbrev pub line_text : Key → Configuration → Bytes
line_text key c = key_text key ++ b'=' ∷ value_text key c

-- The lines of some keys, each ended by a newline.
unfoldable pub keys_text : List Key → Configuration → Bytes
keys_text [] c = []
keys_text (key ∷ keys) c = line_text key c ++ 10 ∷ keys_text keys c

abbrev pub config_text : Configuration → Bytes
config_text c = keys_text all_keys c

-- The integers of a configuration that its file holds are in the range of an `int`.
pub record FitsInts (c : Configuration) : Type 0 where
  pub threshold : FitsInt c.cache_threshold_mb
  pub delay : FitsInt c.idle_delay_minutes
  pub battery : FitsInt c.minimum_battery_percent
  pub cleanup : FitsInt c.max_cleanup_mb_per_run
  pub files : FitsInt c.max_files_per_batch
  pub time : FitsInt c.max_batch_time_ms
