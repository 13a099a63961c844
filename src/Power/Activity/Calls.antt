-- ===== src/Power/Activity/Calls.antt =====
-- Asking for the foreground removes no file and leaves the configuration and the engine alone.
use fresh_core_native.Prelude.{Bytes}
use fresh_core_native.Os.{Env}
use fresh_core_native.Sys.Monad.{Runs}
use fresh_core_native.Sys.Still.{Sensed, Sensed-IsPreorder, senses}
use fresh_core_native.Power.Screen.Calls.{is_screen_on-Sensed}
use fresh_core_native.Power.Activity.{is_heavy_foreground_activity}

module _ ⦃env : Env⦄ {P : Bytes → Type 0} where
  pub is_heavy_foreground_activity-Sensed : Runs (Sensed P) is_heavy_foreground_activity
  unfolding is_heavy_foreground_activity
  is_heavy_foreground_activity-Sensed = search (senses, is_screen_on-Sensed) depth 20
