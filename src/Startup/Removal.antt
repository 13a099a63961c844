-- ===== src/Startup/Removal.antt =====
-- What main removes, and that it ends.
use fresh_core_native.Prelude.{ℕ, ◌<◌, Bytes, List}
use fresh_core_native.Os.{Env}
use fresh_core_native.Os
use fresh_core_native.Sys.{Sys}
use fresh_core_native.Sys.Monad.{Emits, Emits-IsPreorder}
use fresh_core_native.Sys.Frame.{MayRemove}
use fresh_core_native.Sys.Finishes.{Finishes, finishes}
use fresh_core_native.Logging.{old_path}
use fresh_core_native.Filesystem.Limits.{PathLimit}
use fresh_core_native.Cache.Roots.{IsCleanable}
use fresh_core_native.Scheduler.{Turn, Ending, stopped, waiting}
use fresh_core_native.Scheduler.Loop.{run_scheduler-Finishes}
use fresh_core_native.Startup.Steps.{report_path}
use fresh_core_native.Startup.{leave, run_daemon, main_program}

-- What main may remove: cleanable paths, and its own report with the rotated one.
pub data IsRemovable : Bytes → Type 0 where
  cleanable : {path : Bytes} → IsCleanable path → IsRemovable path
  report : IsRemovable report_path
  old_report : IsRemovable (old_path report_path)

abbrev pub Removes : Sys → Sys → Type 0
Removes = Emits (MayRemove IsRemovable)

module _ ⦃env : Env⦄ where
  leave-Finishes : (ending : Ending) → Finishes (leave ending)
  unfolding leave
  leave-Finishes waiting = search finishes
  leave-Finishes stopped = search finishes depth 20

  module _ (limit : PathLimit env.open_dir) (fuel : ℕ) (enough : 4096 < fuel)
      (turns : List Turn) where
    run_daemon-Finishes : Finishes (run_daemon fuel turns)
    unfolding run_daemon
    run_daemon-Finishes =
        search (finishes, run_scheduler-Finishes limit fuel enough, leave-Finishes) depth 20

    -- With a fuel of 4097, main gets through any turns of the event loop, on every device that refuses
    -- to open paths of PATH_MAX bytes.
    pub main_program-Finishes : Finishes (main_program fuel turns)
    unfolding main_program
    main_program-Finishes = search (finishes, run_daemon-Finishes) depth 20
