-- ===== src/Startup.antt =====
-- core/main.cpp.
pub mod Steps
pub mod Removal
pub mod Disabled
use fresh_core_native.Prelude.{ℕ, Bool, true, false, List, if◌then◌else◌}
use fresh_core_native.Os.{Env}
use fresh_core_native.Sys.Monad.{gets}
use fresh_core_native.Sys.Fuel.{Prog, return, lift, ◌>>=◌, ◌>>◌}
use fresh_core_native.Scheduler.{Turn, Ending, stopped, waiting, run_scheduler}
use fresh_core_native.Startup.Steps.{prepare, leave_disabled, start_services, clean_up}

-- `exited` with the exit code; `serving`: the scheduler waits behind the last turn.
pub data Outcome : Type 0 where
  exited : ℕ → Outcome
  serving : Outcome

module _ ⦃env : Env⦄ where
  -- What follows RunScheduler.
  leave : Ending → Prog Outcome
  leave waiting = return serving
  leave stopped = do lift clean_up; return (exited 0)

  run_daemon : ℕ → List Turn → Prog Outcome
  unfolding leave
  run_daemon fuel turns = do lift start_services; ending ← run_scheduler fuel turns; leave ending

  unfoldable pub main_program : ℕ → List Turn → Prog Outcome
  unfolding run_daemon
  main_program fuel turns = do
    lift prepare
    enabled ← lift (gets (λ s. s.config.enabled))
    if enabled then run_daemon fuel turns else (do lift leave_disabled; return (exited 0))
