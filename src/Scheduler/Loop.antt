-- ===== src/Scheduler/Loop.antt =====
-- The event loop over any turns.
use fresh_core_native.Prelude.{ℕ, ◌<◌, Bool, true, false, List, [], ◌∷◌}
use fresh_core_native.Os.{Env}
use fresh_core_native.Sys.Monad.{Runs}
use fresh_core_native.Sys.Fuel.{Prog-bind, Prog-if, Prog-return, Prog-lift}
use fresh_core_native.Sys.Frame.{Steady-IsPreorder, Runs-Steady, steadies}
use fresh_core_native.Sys.Finishes.{
  Finishes, Finishes-bind, Finishes-lift, Finishes-return, Finishes-if, finishes,
}
use fresh_core_native.Logging.Calls.{log-Frame, log-Steady}
use fresh_core_native.Filesystem.Limits.{PathLimit}
use fresh_core_native.Cache.Analyzer.Order.{Sorts}
use fresh_core_native.Decision.{get_current_state}
use fresh_core_native.Decision.Removal.{Cleans, evaluate_and_transition_removes}
use fresh_core_native.Decision.Termination.{evaluate_and_transition-Finishes}
use fresh_core_native.Scheduler.{
  Turn, signal, interrupted, failed, ready, rearm, set_timer, handle_timer, handle_ready,
  event_loop, Ending, stopped, waiting, conclude, run_loop, watch_timer, create_timer,
  run_scheduler,
}

module _ ⦃env : Env⦄ (sorts : Sorts env.sort) (fuel : ℕ) where
  rearm-Cleans : Runs Cleans rearm
  unfolding rearm set_timer get_current_state
  rearm-Cleans = search steadies depth 20

  handle_timer-Cleans : Runs Cleans (handle_timer fuel)
  unfolding handle_timer
  handle_timer-Cleans = Prog-bind _ _ (search steadies) λ readable.
      Prog-if _ _ _ (Prog-bind _ _ (evaluate_and_transition_removes sorts fuel) λ _. rearm-Cleans)
        (Prog-return _)

  pub handle_ready-Cleans : (fds : List Bool) → Runs Cleans (handle_ready fuel fds)
  unfolding handle_ready
  handle_ready-Cleans [] = Prog-return _
  handle_ready-Cleans (is_timer ∷ fds) =
      Prog-bind _ _ (Prog-if _ _ _ handle_timer-Cleans (Prog-return _)) λ _. handle_ready-Cleans fds

  -- Through any turns of the event loop, the daemon removes only paths strictly below the swept
  -- directories and the packages' caches, and its configuration stays, where std::sort sorts.
  event_loop_removes :
      (running : Bool) (turns : List Turn) → Runs Cleans (event_loop fuel running turns)
  unfolding event_loop
  event_loop_removes false turns = Prog-return _
  event_loop_removes true [] = Prog-return _
  event_loop_removes true (signal ∷ turns) = event_loop_removes false turns
  event_loop_removes true (interrupted ∷ turns) = event_loop_removes true turns
  event_loop_removes true (failed ∷ turns) =
      Prog-bind _ _ (Prog-lift _ (Runs-Steady (log-Frame _ _ _))) λ _. Prog-return _
  event_loop_removes true (ready fds ∷ turns) =
      Prog-bind _ _ (handle_ready-Cleans fds) λ _. event_loop_removes true turns

  conclude-Cleans : (ending : Ending) → Runs Cleans (conclude ending)
  unfolding conclude
  conclude-Cleans waiting = Prog-return _
  conclude-Cleans stopped = search (steadies, log-Steady) depth 20

  run_loop-Cleans : (turns : List Turn) → Runs Cleans (run_loop fuel turns)
  unfolding run_loop set_timer
  run_loop-Cleans turns =
      search (steadies, log-Steady, event_loop_removes, conclude-Cleans) depth 20

  watch_timer-Cleans : (turns : List Turn) → Runs Cleans (watch_timer fuel turns)
  unfolding watch_timer
  watch_timer-Cleans turns = search (steadies, log-Steady, run_loop-Cleans) depth 20

  create_timer-Cleans : (turns : List Turn) → Runs Cleans (create_timer fuel turns)
  unfolding create_timer
  create_timer-Cleans turns = search (steadies, log-Steady, watch_timer-Cleans) depth 20

  pub run_scheduler-Cleans : (turns : List Turn) → Runs Cleans (run_scheduler fuel turns)
  unfolding run_scheduler
  run_scheduler-Cleans turns = search (steadies, log-Steady, create_timer-Cleans) depth 20

module _ ⦃env : Env⦄ (limit : PathLimit env.open_dir) (fuel : ℕ) (enough : 4096 < fuel) where
  rearm-Finishes : Finishes rearm
  unfolding rearm
  rearm-Finishes = search finishes depth 10

  handle_timer-Finishes : Finishes (handle_timer fuel)
  unfolding handle_timer
  handle_timer-Finishes = Finishes-bind _ _ (Finishes-lift _) λ readable.
      Finishes-if _ _ _
        (Finishes-bind _ _ (evaluate_and_transition-Finishes limit fuel enough) λ _. rearm-Finishes)
        (Finishes-return _)

  handle_ready-Finishes : (fds : List Bool) → Finishes (handle_ready fuel fds)
  unfolding handle_ready
  handle_ready-Finishes [] = Finishes-return _
  handle_ready-Finishes (is_timer ∷ fds) =
      Finishes-bind _ _ (Finishes-if _ _ _ handle_timer-Finishes (Finishes-return _))
        λ _. handle_ready-Finishes fds

  -- With a fuel of 4097, the loop gets through any turns, on every device that refuses to open paths
  -- of PATH_MAX bytes.
  event_loop-Finishes :
      (running : Bool) (turns : List Turn) → Finishes (event_loop fuel running turns)
  unfolding event_loop
  event_loop-Finishes false turns = Finishes-return _
  event_loop-Finishes true [] = Finishes-return _
  event_loop-Finishes true (signal ∷ turns) = event_loop-Finishes false turns
  event_loop-Finishes true (interrupted ∷ turns) = event_loop-Finishes true turns
  event_loop-Finishes true (failed ∷ turns) =
      Finishes-bind _ _ (Finishes-lift _) λ _. Finishes-return _
  event_loop-Finishes true (ready fds ∷ turns) =
      Finishes-bind _ _ (handle_ready-Finishes fds) λ _. event_loop-Finishes true turns

  conclude-Finishes : (ending : Ending) → Finishes (conclude ending)
  unfolding conclude
  conclude-Finishes waiting = search finishes
  conclude-Finishes stopped = search finishes depth 20

  run_loop-Finishes : (turns : List Turn) → Finishes (run_loop fuel turns)
  unfolding run_loop
  run_loop-Finishes turns = search (finishes, event_loop-Finishes, conclude-Finishes) depth 20

  watch_timer-Finishes : (turns : List Turn) → Finishes (watch_timer fuel turns)
  unfolding watch_timer
  watch_timer-Finishes turns = search (finishes, run_loop-Finishes) depth 20

  create_timer-Finishes : (turns : List Turn) → Finishes (create_timer fuel turns)
  unfolding create_timer
  create_timer-Finishes turns = search (finishes, watch_timer-Finishes) depth 20

  pub run_scheduler-Finishes : (turns : List Turn) → Finishes (run_scheduler fuel turns)
  unfolding run_scheduler
  run_scheduler-Finishes turns = search (finishes, create_timer-Finishes) depth 20
