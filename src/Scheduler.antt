-- ===== src/Scheduler.antt =====
-- core/scheduler.cpp: the descriptors, the timer and the event loop.
pub mod Timer
pub mod Loop
pub mod Setup
pub mod Patience
use fresh_core_native.Prelude.{ℕ, u32, int_to_u64, Bool, true, false, List, [], ◌∷◌, if◌then◌else◌}
use fresh_core_native.Config.{Configuration}
use fresh_core_native.Engine.{
  EngineState, boot, active, screen_off, idle_candidate, deep_idle, maintenance, aborting,
  error_backoff,
}
use fresh_core_native.Os.{Env, Call, info, error}
use fresh_core_native.Sys.Monad.{St, gets, perform}
use fresh_core_native.Sys.Fuel.{Prog, return, lift, ◌>>=◌, ◌>>◌}
use fresh_core_native.Logging.{log}
use fresh_core_native.Decision.{evaluate_and_transition, get_current_state}

-- The switch on the state; the intervals are ints, converted to unsigned int.
unfoldable pub next_sleep_sec : Configuration → EngineState → ℕ
next_sleep_sec c active = u32 (int_to_u64 c.check_interval_active_sec)
next_sleep_sec c screen_off = u32 (int_to_u64 c.check_interval_screen_off_sec)
next_sleep_sec c idle_candidate = u32 (int_to_u64 c.check_interval_deep_idle_sec)
next_sleep_sec c deep_idle = u32 (int_to_u64 c.check_interval_screen_off_sec)
next_sleep_sec c maintenance = u32 (int_to_u64 c.check_interval_screen_off_sec)
next_sleep_sec c aborting = 30
next_sleep_sec c error_backoff = 300
next_sleep_sec c boot = 60

unfoldable pub set_timer : ℕ → St (Unit {0})
set_timer seconds = perform (Call.timerfd_settime seconds) (λ h. tt)

-- What ends one epoll_wait: a signal whose handler clears g_running, another interruption, a failure,
-- or ready descriptors, each with whether it is the timer's.
pub data Turn : Type 0 where
  signal interrupted failed : Turn
  ready : List Bool → Turn

-- `stopped`: the loop, or `RunScheduler`, has ended. `waiting`: it is in epoll_wait behind the last turn.
pub data Ending : Type 0 where
  stopped waiting : Ending

module _ ⦃env : Env⦄ where
  -- The interval of the state that the evaluation ended in.
  unfoldable pub rearm : Prog (Unit {0})
  unfolding set_timer get_current_state
  rearm = do
    state ← lift get_current_state
    config ← lift (gets (λ s. s.config))
    lift (set_timer (next_sleep_sec config state))

  -- The body for the timer's descriptor.
  unfoldable pub handle_timer : ℕ → Prog (Unit {0})
  unfolding rearm
  handle_timer fuel = do
    readable ← lift (perform Call.timerfd_read env.timerfd_read)
    if readable then (do evaluate_and_transition fuel; rearm) else return tt

  unfoldable pub handle_ready : ℕ → List Bool → Prog (Unit {0})
  handle_ready fuel [] = return tt
  handle_ready fuel (is_timer ∷ fds) = do
    if is_timer then handle_timer fuel else return tt
    handle_ready fuel fds

  -- while (g_running), turn by turn.
  unfoldable pub event_loop : ℕ → Bool → List Turn → Prog Ending
  event_loop fuel false turns = return stopped
  event_loop fuel true [] = return waiting
  event_loop fuel true (signal ∷ turns) = event_loop fuel false turns
  event_loop fuel true (interrupted ∷ turns) = event_loop fuel true turns
  event_loop fuel true (failed ∷ turns) = do lift (log error "epoll_wait failed" []); return stopped
  event_loop fuel true (ready fds ∷ turns) = do handle_ready fuel fds; event_loop fuel true turns

  -- The end of `RunScheduler` behind its loop.
  unfoldable pub conclude : Ending → Prog Ending
  conclude waiting = return waiting
  conclude stopped = do
    lift (perform Call.close_timer (λ h. tt))
    lift (perform Call.close_epoll (λ h. tt))
    lift (log info "Scheduler stopped" [])
    return stopped

  run_loop : ℕ → List Turn → Prog Ending
  unfolding event_loop set_timer conclude
  run_loop fuel turns = do
    lift (log info "Scheduler Event Loop started" [])
    lift (set_timer 1)
    ending ← event_loop fuel true turns
    conclude ending

  -- The timer is watched, from where its descriptor exists.
  watch_timer : ℕ → List Turn → Prog Ending
  unfolding run_loop
  watch_timer fuel turns = do
    added ← lift (perform Call.epoll_add env.epoll_add)
    if added then run_loop fuel turns else (do
      lift (log error "Failed to add timerfd to epoll" [])
      lift (perform Call.close_timer (λ h. tt))
      lift (perform Call.close_epoll (λ h. tt))
      return stopped)

  create_timer : ℕ → List Turn → Prog Ending
  unfolding watch_timer
  create_timer fuel turns = do
    created ← lift (perform Call.timerfd_create env.timerfd_create)
    if created then watch_timer fuel turns else (do
      lift (log error "Failed to create timerfd" [])
      lift (perform Call.close_epoll (λ h. tt))
      return stopped)

  unfoldable pub run_scheduler : ℕ → List Turn → Prog Ending
  unfolding create_timer
  run_scheduler fuel turns = do
    created ← lift (perform Call.epoll_create env.epoll_create)
    if created
        then create_timer fuel turns
        else (do lift (log error "Failed to create epoll instance" []); return stopped)
