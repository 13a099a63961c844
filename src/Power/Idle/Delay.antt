-- ===== src/Power/Idle/Delay.antt =====
-- The delay between the screen going off and the device counting as idle, over all evaluations.
use fresh_core_native.Prelude.{
  ℕ, ◌+◌, ◌≤◌, ◌<◌, ◌≡◌, refl, ap, ◌∙◌, subst, sub64, Bool, true, false, ◌==◌, some, List, [], ◌∷◌,
  All, if◌then◌else◌, arith,
}
use fresh_core_native.Os.{Env}
use fresh_core_native.Sys.{Sys}
use fresh_core_native.Sys.Monad.{St, Runs, pure, modify, ◌>>=◌}
use fresh_core_native.Sys.Monad
use fresh_core_native.Sys.Still.{Anywhere, Sensed, Sensed-IsPreorder, senses}
use fresh_core_native.Power.Screen.{is_screen_on}
use fresh_core_native.Power.Screen.Calls.{is_screen_on-Sensed}
use fresh_core_native.Power.Battery.Calls.{is_battery_safe-Sensed}
use fresh_core_native.Power.Thermal.Calls.{is_thermal_safe-Sensed}
use fresh_core_native.Power.Pressure.Calls.{is_memory_pressure_safe-Sensed}
use fresh_core_native.Power.Activity.Calls.{is_heavy_foreground_activity-Sensed}
use fresh_core_native.Power.Idle.{
  not_idle, screen_off, idle_candidate, set_screen_off_time, required_delay_sec,
  get_monotonic_time_sec, check_activity, check_pressure, check_thermal, check_battery,
  evaluate_off, evaluate_idle_state,
}
use fresh_core_native.Power.Idle.Looks.{
  earlier, dark_since, IsBefore, stored, off_since, earlier-InRange, dark_since-InRange,
  off_since-earlier, required_of, stored_time, not_below, waited, Look, lit, dark,
}

module _ ⦃env : Env⦄ where
  check_battery-Sensed : Runs (Sensed Anywhere) check_battery
  unfolding check_battery check_thermal check_pressure check_activity
  check_battery-Sensed =
      search
        (
          senses, is_battery_safe-Sensed, is_thermal_safe-Sensed, is_memory_pressure_safe-Sensed,
          is_heavy_foreground_activity-Sensed,
        )
        depth 60

  passed_delay :
      (b : Bool) (u : Sys)
      → ((if b then pure screen_off else check_battery) u).0 ≡ idle_candidate
      → b ≡ false
  unfolding pure
  passed_delay true u e = ground (arith, e)
  passed_delay false u e = refl

  checked_time :
      (b : Bool) (u : Sys)
      → ((if b then pure screen_off else check_battery) u).1.screen_off_time ≡ u.screen_off_time
  unfolding pure
  checked_time true u = refl
  checked_time false u = (check_battery-Sensed.at u).time

  -- What the clock gives in the state `t`.
  abbrev pub time_now : Sys → ℕ
  time_now t = (env.monotonic t.calls).tv_sec

  evaluate_off_time :
      (t : Sys) → (evaluate_off t).1.screen_off_time ≡ off_since (time_now t) t.screen_off_time
  unfolding evaluate_off ◌>>=◌ get_monotonic_time_sec Monad.perform Monad.gets
  evaluate_off_time t =
      let now = time_now t in
      let m = get_monotonic_time_sec t in
      checked_time _ _
      ∙ ap (λ (x : Sys). x.screen_off_time) (stored_time (t.screen_off_time == 0) now m.1)

  evaluate_off_waits :
      (t : Sys)
      → (evaluate_off t).0 ≡ idle_candidate
      → required_delay_sec t ≤ sub64 (time_now t) (off_since (time_now t) t.screen_off_time)
  unfolding evaluate_off ◌>>=◌ get_monotonic_time_sec Monad.perform Monad.gets
  evaluate_off_waits t e =
      let now = time_now t in
      let m = get_monotonic_time_sec t in
      let u = (if t.screen_off_time == 0 then modify (set_screen_off_time now) else pure tt) m.1 in
      let same = stored_time (t.screen_off_time == 0) now m.1 in
      not_below (sub64 now u.1.screen_off_time) (required_delay_sec u.1) _ _ (passed_delay _ u.1 e)
        (ap (λ (x : Sys). sub64 now x.screen_off_time) same) (ap required_delay_sec same)

  abbrev look_of : Bool → Sys → Look
  look_of on t = if on then lit else dark (time_now t)

  -- What an evaluation begun in `s` finds.
  abbrev pub look : Sys → Look
  look s = look_of (is_screen_on s).0 (is_screen_on s).1

  -- From a start with no time stored to `s`: the evaluations, newest first, and between them whatever
  -- leaves the stored time alone.
  pub data Evaluated : List Look → Sys → Type 0 where
    begun : {s : Sys} → s.screen_off_time ≡ 0 → Evaluated [] s
    elsewhere :
        {looks : List Look} {s t : Sys}
        → Evaluated looks s
        → t.screen_off_time ≡ s.screen_off_time
        → Evaluated looks t
    evaluated :
        {looks : List Look} {s : Sys}
        → Evaluated looks s
        → Evaluated (look s ∷ looks) (evaluate_idle_state s).1

  stored_after :
      (on : Bool) (now : ℕ) (looks : List Look) (t : Sys)
      → All (IsBefore now) (look_of on t ∷ looks)
      → t.screen_off_time ≡ stored (dark_since looks)
      → let m =
          if on then (modify (set_screen_off_time 0) >>= λ _. pure not_idle) else evaluate_off in
        (m t).1.screen_off_time ≡ stored (dark_since (look_of on t ∷ looks))
  unfolding ◌>>=◌ modify pure
  stored_after true now looks t h e = refl
  stored_after false now looks t h e =
      evaluate_off_time t
      ∙ (ap (off_since (time_now t)) e
          ∙ off_since-earlier now (time_now t) (dark_since looks)
              (dark_since-InRange now looks h.1))

  -- The stored time is that of the first look that found the screen off.
  Evaluated-stored :
      (now : ℕ) (looks : List Look) {s : Sys}
      → Evaluated looks s
      → All (IsBefore now) looks
      → s.screen_off_time ≡ stored (dark_since looks)
  unfolding evaluate_idle_state ◌>>=◌
  Evaluated-stored now _ (begun e) h = e
  Evaluated-stored now looks (elsewhere r e) h = e ∙ Evaluated-stored now looks r h
  Evaluated-stored now _ (evaluated {looks} {s} r) h =
      let t = (is_screen_on s).1 in
      stored_after (is_screen_on s).0 now looks t h
        (((is_screen_on-Sensed {P = Anywhere}).at s).time ∙ Evaluated-stored now looks r h.1)

  -- The screen is off now, and has been found off since `since`, for the required time.
  pub record Waited (s : Sys) (looks : List Look) (now : ℕ) : Type 0 where
    pub since : ℕ
    pub first : dark_since (look s ∷ looks) ≡ some since
    pub long : since + required_delay_sec s ≤ now

  Waited-look :
      (on : Bool) (looks : List Look) (t : Sys)
      → All (IsBefore (time_now t)) (look_of on t ∷ looks)
      → t.screen_off_time ≡ stored (dark_since looks)
      → time_now t < 18446744073709551616
      → let m =
          if on then (modify (set_screen_off_time 0) >>= λ _. pure not_idle) else evaluate_off in
        (m t).0 ≡ idle_candidate
        → (since : ℕ) × (dark_since (look_of on t ∷ looks) ≡ some since)
          × (since + required_delay_sec t ≤ time_now t)
  unfolding ◌>>=◌ modify pure
  Waited-look true looks t h e few i = ground (arith, i)
  Waited-look false looks t h e few i =
      let now = time_now t in
      let since = earlier now (dark_since looks) in
      let same : off_since now t.screen_off_time ≡ since =
        ap (off_since now) e
        ∙ off_since-earlier now now (dark_since looks) (dark_since-InRange now looks h.1) in
      let range =
        earlier-InRange now now (dark_since looks) h.0 (dark_since-InRange now looks h.1) in
      let delay : required_delay_sec t ≤ sub64 now since =
        subst (λ n. required_delay_sec t ≤ sub64 now n) same (evaluate_off_waits t i) in
      (since, refl, waited now since (required_delay_sec t) range.1 few delay)

  -- After any evaluations, from a start with no time stored, and whatever happened between them that
  -- leaves the stored time alone: where the next evaluation answers that the device is a candidate for
  -- idling, it finds the screen off, and so did all evaluations since one that lies back by at least
  -- the configured delay, before which the screen was found on or not looked at; where the clock gave
  -- numbers from 1 to the last one, which is below 2 ^ 64.
  pub evaluate_idle_state_waits :
      (looks : List Look) (s : Sys)
      → Evaluated looks s
      → All (IsBefore (time_now (is_screen_on s).1)) (look s ∷ looks)
      → time_now (is_screen_on s).1 < 18446744073709551616
      → (evaluate_idle_state s).0 ≡ idle_candidate
      → Waited s looks (time_now (is_screen_on s).1)
  unfolding evaluate_idle_state ◌>>=◌
  evaluate_idle_state_waits looks s r h few i =
      let t = (is_screen_on s).1 in
      let sensed = (is_screen_on-Sensed {P = Anywhere}).at s in
      let e = sensed.time ∙ Evaluated-stored (time_now t) looks r h.1 in
      let (since, first, long) = Waited-look (is_screen_on s).0 looks t h e few i in
      let required : required_delay_sec t ≡ required_delay_sec s =
        ap required_of sensed.still.frame.steady.config in
      record { since = since; first = first; long = omega (arith, long, required) }
