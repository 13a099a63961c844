-- ===== src/Power/Idle/Calls.antt =====
-- Evaluating the idle state removes no file and leaves the configuration and the engine alone.
use fresh_core_native.Prelude.{Bytes}
use fresh_core_native.Os.{Env}
use fresh_core_native.Sys.Monad.{Runs}
use fresh_core_native.Sys.Still.{Still, Still-IsPreorder, stills, Runs-Still, Runs-Frame}
use fresh_core_native.Sys.Frame.{Frame}
use fresh_core_native.Power.Screen.Calls.{is_screen_on-Sensed}
use fresh_core_native.Power.Battery.Calls.{is_battery_safe-Sensed}
use fresh_core_native.Power.Thermal.Calls.{is_thermal_safe-Sensed}
use fresh_core_native.Power.Pressure.Calls.{is_memory_pressure_safe-Sensed}
use fresh_core_native.Power.Activity.Calls.{is_heavy_foreground_activity-Sensed}
use fresh_core_native.Power.Idle.{evaluate_idle_state}

module _ ⦃env : Env⦄ {P : Bytes → Type 0} where
  pub evaluate_idle_state-Still : Runs (Still P) evaluate_idle_state
  unfolding evaluate_idle_state
  evaluate_idle_state-Still =
      search
        (
          stills,
          Runs-Still is_screen_on-Sensed,
          Runs-Still is_battery_safe-Sensed,
          Runs-Still is_thermal_safe-Sensed,
          Runs-Still is_memory_pressure_safe-Sensed,
          Runs-Still is_heavy_foreground_activity-Sensed,
        )
        depth 60

  pub evaluate_idle_state-Frame : Runs (Frame P) evaluate_idle_state
  evaluate_idle_state-Frame = Runs-Frame evaluate_idle_state-Still
