-- ===== src/Power/Thermal/Calls.antt =====
-- Reading the thermal zones removes no file and leaves the configuration and the engine alone.
use fresh_core_native.Prelude.{false, Bytes, List, [], ◌∷◌}
use fresh_core_native.Os.{Env}
use fresh_core_native.Sys.Monad.{Runs, Runs-bind, Runs-if, Runs-pure}
use fresh_core_native.Sys.Still.{Sensed, Sensed-IsPreorder, senses}
use fresh_core_native.Logging.Calls.{log-Sensed}
use fresh_core_native.Power.Thermal.{detect_zones, all_cool, is_thermal_safe}

module _ ⦃env : Env⦄ {P : Bytes → Type 0} where
  detect_zones-Sensed : (names : List Bytes) → Runs (Sensed P) (detect_zones names)
  unfolding detect_zones
  detect_zones-Sensed [] = search senses
  detect_zones-Sensed (name ∷ names) =
      Runs-bind _ _ (search senses depth 20) (λ _. detect_zones-Sensed names)

  all_cool-Sensed : (paths : List Bytes) → Runs (Sensed P) (all_cool paths)
  unfolding all_cool
  all_cool-Sensed [] = search senses
  all_cool-Sensed (path ∷ paths) =
      Runs-bind _ _ (search senses)
        (λ file. Runs-if _ _ _ (Runs-pure false) (all_cool-Sensed paths))

  pub is_thermal_safe-Sensed : Runs (Sensed P) is_thermal_safe
  unfolding is_thermal_safe
  is_thermal_safe-Sensed =
      search (senses, log-Sensed, detect_zones-Sensed, all_cool-Sensed) depth 30
