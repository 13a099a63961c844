-- ===== src/Scheduler/Timer.antt =====
-- The timer is armed again after each evaluation.
use fresh_core_native.Prelude.{
  Bytes, sym, refl, subst, ℕ, ◌<◌, ◌≡◌, ap, true, Option, none, some, ◌∷◌, ℤ, pos, arith, u32,
  int_to_u64,
}
use fresh_core_native.Config.{Configuration, default_configuration, lines}
use fresh_core_native.Config.File.{load_lines}
use fresh_core_native.Config.File.Intervals.{load_lines-SameIntervals}
use fresh_core_native.Engine.{
  EngineState, boot, active, screen_off, idle_candidate, deep_idle, maintenance, aborting,
  error_backoff,
}
use fresh_core_native.Os.{Env, Call, History}
use fresh_core_native.Sys.{Sys}
use fresh_core_native.Sys.Monad
use fresh_core_native.Sys.Fuel.{continue, lift, ◌>>=◌}
use fresh_core_native.Sys.Finishes.{IsDefined}
use fresh_core_native.Filesystem.Limits.{PathLimit}
use fresh_core_native.Cache.Analyzer.Order.{Sorts}
use fresh_core_native.Decision.{get_current_state, evaluate_and_transition}
use fresh_core_native.Decision.Removal.{evaluate_and_transition_removes}
use fresh_core_native.Decision.Termination.{evaluate_and_transition-Finishes}
use fresh_core_native.Scheduler.{next_sleep_sec, rearm, set_timer, handle_timer}

-- How long the daemon sleeps in a state: the configured intervals in seconds, where they arm the
-- timer, or the fixed ones.
pub data Sleeps (c : Configuration) : EngineState → ℕ → Type 0 where
  in_active : (n : ℕ) → c.check_interval_active_sec ≡ pos n → Sleeps c active n
  in_screen_off : (n : ℕ) → c.check_interval_screen_off_sec ≡ pos n → Sleeps c screen_off n
  in_idle_candidate : (n : ℕ) → c.check_interval_deep_idle_sec ≡ pos n → Sleeps c idle_candidate n
  in_deep_idle : (n : ℕ) → c.check_interval_screen_off_sec ≡ pos n → Sleeps c deep_idle n
  in_maintenance : (n : ℕ) → c.check_interval_screen_off_sec ≡ pos n → Sleeps c maintenance n
  in_aborting : Sleeps c aborting 30
  in_error_backoff : Sleeps c error_backoff 300
  in_boot : Sleeps c boot 60

-- An interval of the configuration that arms the timer.
pub data IsInterval : ℤ → Type 0 where
  seconds : (n : ℕ) → 0 < n → n < 4294967296 → IsInterval (pos n)

pub record HasIntervals (c : Configuration) : Type 0 where
  pub on_active : IsInterval c.check_interval_active_sec
  pub on_screen_off : IsInterval c.check_interval_screen_off_sec
  pub on_deep_idle : IsInterval c.check_interval_deep_idle_sec

-- The interval with its number of seconds, at which the switch arrives.
Seconds : ℤ → Type 0
Seconds z = (n : ℕ) × (z ≡ pos n) × (0 < n) × (u32 (int_to_u64 z) ≡ n)

IsInterval-Seconds : (z : ℤ) → IsInterval z → Seconds z
unfolding Seconds
IsInterval-Seconds _ (seconds n p few) = (n, refl, p, omega arith)

record Delay (c : Configuration) (e : EngineState) (d : ℕ) : Type 0 where
  sleeps : Sleeps c e d
  positive : 0 < d

Delay-Seconds :
    (c : Configuration) (e : EngineState) (z : ℤ)
    → Seconds z
    → ((n : ℕ) → z ≡ pos n → Sleeps c e n)
    → Delay c e (u32 (int_to_u64 z))
unfolding Seconds
Delay-Seconds c e z (n, e', p, same) h =
    subst (Delay c e) (sym same) (record { sleeps = h n e'; positive = p })

next_sleep_sec-Delay :
    (c : Configuration) (e : EngineState) → HasIntervals c → Delay c e (next_sleep_sec c e)
unfolding next_sleep_sec
next_sleep_sec-Delay c active h =
    Delay-Seconds c _ _ (IsInterval-Seconds _ h.on_active) Sleeps.in_active
next_sleep_sec-Delay c screen_off h =
    Delay-Seconds c _ _ (IsInterval-Seconds _ h.on_screen_off) Sleeps.in_screen_off
next_sleep_sec-Delay c idle_candidate h =
    Delay-Seconds c _ _ (IsInterval-Seconds _ h.on_deep_idle) Sleeps.in_idle_candidate
next_sleep_sec-Delay c deep_idle h =
    Delay-Seconds c _ _ (IsInterval-Seconds _ h.on_screen_off) Sleeps.in_deep_idle
next_sleep_sec-Delay c maintenance h =
    Delay-Seconds c _ _ (IsInterval-Seconds _ h.on_screen_off) Sleeps.in_maintenance
next_sleep_sec-Delay c aborting h = record { sleeps = in_aborting; positive = omega arith }
next_sleep_sec-Delay c error_backoff h = record {
  sleeps = in_error_backoff;
  positive = omega arith;
}
next_sleep_sec-Delay c boot h = record { sleeps = in_boot; positive = omega arith }

-- The handler returned, and its last call armed the timer for the state that it left, by `config`.
pub record IsRearmed (config : Configuration) (r : Option (Unit {0})) (t : Sys) : Type 0 where
  pub returned : IsDefined r
  pub delay : ℕ
  pub sleeps : Sleeps config t.engine delay
  pub positive : 0 < delay
  pub before : History
  pub last : t.calls ≡ Call.timerfd_settime delay ∷ before

module _ ⦃env : Env⦄ where
  continue-rearm :
      (config : Configuration) (r : Option (Unit {0})) (t : Sys)
      → IsDefined r
      → HasIntervals config
      → t.config ≡ config
      → IsRearmed config (continue r (λ _. rearm) t).0 (continue r (λ _. rearm) t).1
  unfolding rearm set_timer get_current_state lift ◌>>=◌ Monad.gets Monad.perform
  continue-rearm config none t d h same = absurd d
  continue-rearm config (some a) t d h same =
      let k = next_sleep_sec-Delay config t.engine h in
      record {
        returned = tt;
        delay = next_sleep_sec config t.engine;
        sleeps = k.sleeps;
        positive = k.positive;
        before = t.calls;
        last =
            ap (λ (c : Configuration). Call.timerfd_settime (next_sleep_sec c t.engine) ∷ t.calls)
              same;
      }

module _ ⦃env : Env⦄ (limit : PathLimit env.open_dir) (sorts : Sorts env.sort) (fuel : ℕ)
    (enough : 4096 < fuel) where
  -- When the timer fires and its descriptor can be read, and the three configured intervals are
  -- positive and fit 32 bits, the handler returns and its last call arms the timer, with a delay that
  -- is not 0: the interval for ACTIVE, that for SCREEN_OFF also in DEEP_IDLE and MAINTENANCE, that for
  -- deep idle in IDLE_CANDIDATE, and 30, 300 and 60 seconds in ABORTING, ERROR_BACKOFF and BOOT, by
  -- the state after the handler and the configuration before it; with a fuel of 4097, where open
  -- refuses paths of PATH_MAX bytes and std::sort sorts.
  pub handle_timer_rearms :
      (s : Sys)
      → HasIntervals s.config
      → env.timerfd_read s.calls ≡ true
      → IsRearmed s.config (handle_timer fuel s).0 (handle_timer fuel s).1
  unfolding handle_timer lift ◌>>=◌ Monad.perform
  handle_timer_rearms s h readable =
      let t : Sys = record s { calls = Call.timerfd_read ∷ s.calls } in
      rw readable (
        continue-rearm s.config (evaluate_and_transition fuel t).0
          (evaluate_and_transition fuel t).1
          ((evaluate_and_transition-Finishes limit fuel enough).at t) h
          ((evaluate_and_transition_removes sorts fuel).at t).config)

interval_positive : (z : ℤ) → IsInterval z → 0 < u32 (int_to_u64 z)
interval_positive _ (seconds n p few) = omega arith

next_sleep_sec_positive :
    (c : Configuration) (e : EngineState)
    → IsInterval c.check_interval_active_sec
    → IsInterval c.check_interval_screen_off_sec
    → IsInterval c.check_interval_deep_idle_sec
    → 0 < next_sleep_sec c e
unfolding next_sleep_sec
next_sleep_sec_positive c active a o d = interval_positive c.check_interval_active_sec a
next_sleep_sec_positive c screen_off a o d = interval_positive c.check_interval_screen_off_sec o
next_sleep_sec_positive c idle_candidate a o d = interval_positive c.check_interval_deep_idle_sec d
next_sleep_sec_positive c deep_idle a o d = interval_positive c.check_interval_screen_off_sec o
next_sleep_sec_positive c maintenance a o d = interval_positive c.check_interval_screen_off_sec o
next_sleep_sec_positive c aborting a o d = omega arith
next_sleep_sec_positive c error_backoff a o d = omega arith
next_sleep_sec_positive c boot a o d = omega arith

-- Whatever the configuration file holds, the configuration that it leaves disarms the timer in no
-- state of the engine: the interval is not 0.
pub loaded_interval_positive :
    (overflow : Bytes → ℤ) (content : Bytes) (e : EngineState)
    → 0 < next_sleep_sec (load_lines overflow (lines content) default_configuration) e
loaded_interval_positive overflow content e =
    let same = load_lines-SameIntervals overflow (lines content) default_configuration in
    next_sleep_sec_positive (load_lines overflow (lines content) default_configuration) e
      (subst IsInterval (sym same.active) (seconds 1800 (omega arith) (omega arith)))
      (subst IsInterval (sym same.screen_off) (seconds 300 (omega arith) (omega arith)))
      (subst IsInterval (sym same.deep_idle) (seconds 60 (omega arith) (omega arith)))
