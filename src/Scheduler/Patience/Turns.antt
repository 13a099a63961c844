-- ===== src/Scheduler/Patience/Turns.antt =====
-- The turns of the event loop against the patience of the engine.
use fresh_core_native.Prelude.{
  ℕ, ◌+◌, ◌≤◌, inr, Bool, true, false, Option, none, some, List, [], ◌∷◌,
}
use fresh_core_native.Engine.{EngineState}
use fresh_core_native.Os.{Env}
use fresh_core_native.Sys.{Sys}
use fresh_core_native.Sys.Monad.{Runs}
use fresh_core_native.Sys.Fuel.{return, OnSome}
use fresh_core_native.Sys.Frame.{Frame, Frame-IsPreorder, frames, Steady-IsPreorder}
use fresh_core_native.Logging.Calls.{log-Frame}
use fresh_core_native.Decision.{evaluate_and_transition, get_current_state}
use fresh_core_native.Decision.Quiet.{Keeps, evaluate_and_transition-Keeps}
use fresh_core_native.Decision.Graph.{◌⟶◌, returned_moves}
use fresh_core_native.Scheduler.{
  set_timer, Turn, signal, interrupted, failed, ready, rearm, handle_timer, handle_ready,
  event_loop, Ending, stopped, waiting, conclude, run_loop, watch_timer, create_timer,
  run_scheduler,
}
use fresh_core_native.Scheduler.Patience.{
  patience, ticks, turn_ticks, move_spends, patient-ne-deep_idle, Spends, Spends-return, Spends-if,
  Spends-bind, Spends-after, Spends-before,
}

module _ ⦃env : Env⦄ (fuel : ℕ) where
  evaluate_and_transition-Spends : Spends 1 (evaluate_and_transition fuel)
  evaluate_and_transition-Spends = record {
    keeps = λ s h. evaluate_and_transition-Keeps fuel s (inr (patient-ne-deep_idle s.engine h));
    left = λ s h. moved s.engine _ (evaluate_and_transition fuel s).0 (returned_moves fuel s);
  }
    where
      moved :
          (e t : EngineState) (r : Option (Unit {0}))
          → OnSome (λ _. e ⟶ t) r
          → OnSome (λ _. patience e ≤ 1 + patience t) r
      moved e t none h = tt
      moved e t (some a) h = move_spends h

  rearm-Frame : Runs (Frame (λ _. ⊥)) rearm
  unfolding rearm set_timer get_current_state
  rearm-Frame = search frames depth 20

  handle_timer-Spends : Spends 1 (handle_timer fuel)
  unfolding handle_timer
  handle_timer-Spends = Spends-after 1 _ _ (search frames depth 10) λ readable.
      Spends-if 1 _ _ _ (Spends-before 1 _ _ evaluate_and_transition-Spends λ _. rearm-Frame)
        (Spends-return 1 _)

  handle_ready-Spends : (fds : List Bool) → Spends (ticks fds) (handle_ready fuel fds)
  unfolding handle_ready
  handle_ready-Spends [] = Spends-return 0 _
  handle_ready-Spends (true ∷ fds) =
      Spends-bind 1 (ticks fds) _ _ handle_timer-Spends λ _. handle_ready-Spends fds
  handle_ready-Spends (false ∷ fds) =
      Spends-after (ticks fds) (return tt) _ (search frames) λ _. handle_ready-Spends fds

  event_loop-Spends :
      (running : Bool) (turns : List Turn)
      → Spends (turn_ticks turns) (event_loop fuel running turns)
  unfolding event_loop
  event_loop-Spends false turns = Spends-return _ _
  event_loop-Spends true [] = Spends-return _ _
  event_loop-Spends true (signal ∷ turns) = event_loop-Spends false turns
  event_loop-Spends true (interrupted ∷ turns) = event_loop-Spends true turns
  event_loop-Spends true (failed ∷ turns) =
      Spends-after (turn_ticks turns) _ _ (search (frames, log-Frame) depth 20)
        λ _. Spends-return _ _
  event_loop-Spends true (ready fds ∷ turns) =
      Spends-bind (ticks fds) (turn_ticks turns) _ _ (handle_ready-Spends fds)
        λ _. event_loop-Spends true turns

  conclude-Frame : (ending : Ending) → Runs (Frame (λ _. ⊥)) (conclude ending)
  unfolding conclude
  conclude-Frame waiting = search frames
  conclude-Frame stopped = search (frames, log-Frame) depth 20

  run_loop-Spends : (turns : List Turn) → Spends (turn_ticks turns) (run_loop fuel turns)
  unfolding run_loop set_timer
  run_loop-Spends turns = Spends-after _ _ _ (search (frames, log-Frame) depth 10) λ _.
      Spends-after _ _ _ (search frames depth 10)
        λ _. Spends-before _ _ _ (event_loop-Spends true turns) conclude-Frame

  watch_timer-Spends : (turns : List Turn) → Spends (turn_ticks turns) (watch_timer fuel turns)
  unfolding watch_timer
  watch_timer-Spends turns =
      search (Spends-after, Spends-if, Spends-return, frames, log-Frame, run_loop-Spends) depth 30

  create_timer-Spends : (turns : List Turn) → Spends (turn_ticks turns) (create_timer fuel turns)
  unfolding create_timer
  create_timer-Spends turns =
      search (Spends-after, Spends-if, Spends-return, frames, log-Frame, watch_timer-Spends) depth
        30

  run_scheduler-Spends : (turns : List Turn) → Spends (turn_ticks turns) (run_scheduler fuel turns)
  unfolding run_scheduler
  run_scheduler-Spends turns =
      search (Spends-after, Spends-if, Spends-return, frames, log-Frame, create_timer-Spends) depth
        30

  -- However RunScheduler's turns go, as long as the timer was found ready at most as often as the
  -- engine's patience says, four times in MAINTENANCE, ABORTING and ERROR_BACKOFF, three in BOOT and
  -- ACTIVE, two in SCREEN_OFF, one in IDLE_CANDIDATE and never in DEEP_IDLE, neither rmdir nor unlink is
  -- called, and the configuration stays.
  pub run_scheduler_waits :
      (turns : List Turn) (s : Sys)
      → turn_ticks turns ≤ patience s.engine
      → Keeps s (run_scheduler fuel turns s).1
  run_scheduler_waits turns s = (run_scheduler-Spends turns).keeps s
