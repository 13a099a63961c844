-- ===== src/Power/Idle.antt =====
-- power/idle_detector.cpp
pub mod Calls
pub mod Looks
pub mod Delay
use fresh_core_native.Prelude.{ℕ, int_to_u64, int_scale, sub64, Bool, not, ltb, ◌==◌, if◌then◌else◌}
use fresh_core_native.Os.{Env, Call}
use fresh_core_native.Sys.{Sys}
use fresh_core_native.Sys.Monad.{St, pure, gets, modify, perform, ◌>>=◌, ◌>>◌}
use fresh_core_native.Power.Screen.{is_screen_on}
use fresh_core_native.Power.Battery.{is_battery_safe}
use fresh_core_native.Power.Thermal.{is_thermal_safe}
use fresh_core_native.Power.Pressure.{is_memory_pressure_safe}
use fresh_core_native.Power.Activity.{is_heavy_foreground_activity}

pub data IdleState : Type 0 where
  not_idle screen_off idle_candidate deep_idle : IdleState

abbrev set_screen_off_time : ℕ → Sys → Sys
set_screen_off_time t s = record s { screen_off_time = t }

-- `idle_delay_minutes * 60` is an int product, converted to uint64_t.
abbrev pub required_delay_sec : Sys → ℕ
required_delay_sec s = int_to_u64 (int_scale s.config.idle_delay_minutes 60)

module _ ⦃env : Env⦄ where
  get_monotonic_time_sec : St ℕ
  get_monotonic_time_sec = perform Call.clock_monotonic (λ h. (env.monotonic h).tv_sec)

  -- The last check, and before it one function for each `return SCREEN_OFF`.
  check_activity : St IdleState
  check_activity = do
    heavy ← is_heavy_foreground_activity
    if heavy then pure screen_off else pure idle_candidate

  check_pressure : St IdleState
  unfolding check_activity
  check_pressure = do
    safe ← is_memory_pressure_safe
    if not safe then pure screen_off else check_activity

  check_thermal : St IdleState
  unfolding check_pressure
  check_thermal = do safe ← is_thermal_safe; if not safe then pure screen_off else check_pressure

  check_battery : St IdleState
  unfolding check_thermal
  check_battery = do safe ← is_battery_safe; if not safe then pure screen_off else check_thermal

  -- With the screen off: the time since it went off, then the conditions.
  evaluate_off : St IdleState
  unfolding check_battery get_monotonic_time_sec
  evaluate_off = do
    now ← get_monotonic_time_sec
    seen ← gets (λ s. s.screen_off_time)
    if seen == 0 then modify (set_screen_off_time now) else pure tt
    s ← gets (λ s. s)
    if ltb (sub64 now s.screen_off_time) (required_delay_sec s)
        then pure screen_off
        else check_battery

  unfoldable pub evaluate_idle_state : St IdleState
  unfolding evaluate_off
  evaluate_idle_state = do
    on ← is_screen_on
    if on then (do modify (set_screen_off_time 0); pure not_idle) else evaluate_off
