-- ===== src/Power/Thermal.antt =====
-- power/thermal_monitor.cpp: whether every thermal zone is cool enough.
pub mod Calls
use fresh_core_native.Prelude.{
  ℕ, Bytes, bytes, starts_with, ℤ, pos, ltb_ℤ, int_quot, Bool, true, false, not, Option, none, some,
  List, [], ◌∷◌, ◌++◌, length, if◌then◌else◌,
}
use fresh_core_native.Os.{Env, Call, info, number}
use fresh_core_native.Streams.{stream_int}
use fresh_core_native.Sys.{Sys}
use fresh_core_native.Sys.Monad.{St, pure, gets, modify, perform, ◌>>=◌, ◌>>◌}
use fresh_core_native.Logging.{log}

abbrev thermal_dir : Bytes
thermal_dir = bytes "/sys/class/thermal"

abbrev zone_path : Bytes → Bytes
zone_path name = bytes "/sys/class/thermal/" ++ name ++ bytes "/temp"

abbrev add_zone : Bytes → Sys → Sys
add_zone path s = record s { thermal_zones = s.thermal_zones ++ path ∷ [] }

abbrev is_none : Option Bytes → Bool
is_none none = true
is_none (some _) = false

abbrev no_zones : List Bytes → Bool
no_zones [] = true
no_zones (_ ∷ _) = false

-- Millidegrees or degrees, as the zone reports them.
unfoldable pub in_degrees : ℤ → ℤ
in_degrees temp = if ltb_ℤ (pos 1000) temp then int_quot temp 1000 else temp

-- Whether a reading ends the loop with `false`.
unfoldable pub too_hot : Option Bytes → Bool
unfolding in_degrees
too_hot none = false
too_hot (some content) = elim (stream_int content) [
  | none ↦ false
  | some temp ↦ ltb_ℤ (pos 45) (in_degrees temp)
]

module _ ⦃env : Env⦄ where
  detect_zone : Bytes → St (Unit {0})
  detect_zone name =
      if starts_with (bytes "thermal_zone") name
      then (do
        file ← perform (Call.read_file (zone_path name)) (λ h. env.file h (zone_path name))
        if is_none file then pure tt else modify (add_zone (zone_path name)))
      else pure tt

  detect_zones : List Bytes → St (Unit {0})
  unfolding detect_zone
  detect_zones [] = pure tt
  detect_zones (name ∷ names) = do detect_zone name; detect_zones names

  detect_thermal_zones : St (Unit {0})
  unfolding detect_zones
  detect_thermal_zones = do
    opened ← perform (Call.opendir thermal_dir) (λ h. env.opendir h thermal_dir)
    if opened
        then (do
          names ← perform (Call.readdir thermal_dir) (λ h. env.entries h thermal_dir)
          detect_zones names
          perform (Call.closedir thermal_dir) (λ h. tt)
          zones ← gets (λ s. s.thermal_zones)
          log info "Detected %zu thermal zones." (number (length zones) ∷ []))
        else pure tt

  unfoldable pub all_cool : List Bytes → St Bool
  all_cool [] = pure true
  all_cool (path ∷ paths) = do
    file ← perform (Call.read_file path) (λ h. env.file h path)
    if too_hot file then pure false else all_cool paths

  unfoldable pub is_thermal_safe : St Bool
  unfolding detect_thermal_zones all_cool
  is_thermal_safe = do
    s ← gets (λ s. s)
    if not s.config.thermal_protection then pure true else (do
      if no_zones s.thermal_zones then detect_thermal_zones else pure tt
      zones ← gets (λ s. s.thermal_zones)
      if no_zones zones then pure false else all_cool zones)
