-- ===== src/Power/Pressure/Calls.antt =====
-- Reading the memory pressure removes no file and leaves the configuration and the engine alone.
use fresh_core_native.Prelude.{Bytes}
use fresh_core_native.Os.{Env}
use fresh_core_native.Sys.Monad.{Runs}
use fresh_core_native.Sys.Still.{Sensed, Sensed-IsPreorder, senses}
use fresh_core_native.Logging.Calls.{log-Sensed}
use fresh_core_native.Power.Pressure.{is_memory_pressure_safe}

module _ ⦃env : Env⦄ {P : Bytes → Type 0} where
  pub is_memory_pressure_safe-Sensed : Runs (Sensed P) is_memory_pressure_safe
  unfolding is_memory_pressure_safe
  is_memory_pressure_safe-Sensed = search (senses, log-Sensed) depth 20
