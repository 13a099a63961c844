-- ===== src/Power/Battery/Calls.antt =====
-- Reading the battery removes no file and leaves the configuration and the engine alone.
use fresh_core_native.Prelude.{Bytes, ℤ, List, [], ◌∷◌, Option, none, some}
use fresh_core_native.Os.{Env}
use fresh_core_native.Sys.Monad.{Runs, Runs-bind}
use fresh_core_native.Sys.Still.{Sensed, Sensed-IsPreorder, senses}
use fresh_core_native.Logging.Calls.{log-Sensed}
use fresh_core_native.Sys.Monad.{St}
use fresh_core_native.Power.Battery.{detect_base, detect_loop, judge_capacity, is_battery_safe}

module _ ⦃env : Env⦄ {P : Bytes → Type 0} where
  detect_base-Sensed :
      (base : Bytes) (file : Option Bytes) (rest : St (Unit {0}))
      → Runs (Sensed P) rest
      → Runs (Sensed P) (detect_base base file rest)
  unfolding detect_base
  detect_base-Sensed base none rest h = h
  detect_base-Sensed base (some _) rest h = search (senses, log-Sensed) depth 20

  detect_loop-Sensed : (bases : List Bytes) → Runs (Sensed P) (detect_loop bases)
  unfolding detect_loop
  detect_loop-Sensed [] = search (senses, log-Sensed) depth 20
  detect_loop-Sensed (base ∷ bases) =
      Runs-bind _ _ (search senses)
        (λ file. detect_base-Sensed base file _ (detect_loop-Sensed bases))

  judge_capacity-Sensed : (capacity : Option ℤ) → Runs (Sensed P) (judge_capacity capacity)
  unfolding judge_capacity
  judge_capacity-Sensed none = search senses
  judge_capacity-Sensed (some capacity) = search (senses, log-Sensed) depth 20

  pub is_battery_safe-Sensed : Runs (Sensed P) is_battery_safe
  unfolding is_battery_safe
  is_battery_safe-Sensed = search (senses, detect_loop-Sensed, judge_capacity-Sensed) depth 20
