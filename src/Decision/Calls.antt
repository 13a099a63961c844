-- ===== src/Decision/Calls.antt =====
-- A change of the engine's state removes no file and leaves the configuration alone.
use fresh_core_native.Prelude.{Bytes}
use fresh_core_native.Engine.{EngineState, active}
use fresh_core_native.Os.{Env}
use fresh_core_native.Sys.Monad.{Runs}
use fresh_core_native.Sys.Fuel.{Prog-bind, Prog-ite, Prog-return, Prog-lift}
use fresh_core_native.Sys.Frame.{Steady, Steady-IsPreorder, Runs-Steady, steadies}
use fresh_core_native.Logging.Calls.{log-Frame}
use fresh_core_native.Tweaks.Calls.{wake_from_doze-Frame}
use fresh_core_native.Decision.{transition_to, wake, get_current_state}

module _ ⦃env : Env⦄ {P : Bytes → Type 0} where
  pub transition_to-Steady : (e : EngineState) → Runs (Steady P) (transition_to e)
  unfolding transition_to get_current_state
  transition_to-Steady e = Prog-bind _ _ (search steadies) λ current.
      Prog-ite _ _ _ (Prog-return _)
        (Prog-bind _ _ (Prog-lift _ (Runs-Steady (log-Frame _ _ _))) λ _. search steadies)

  pub wake-Steady : (current : EngineState) → Runs (Steady P) (wake current)
  unfolding wake
  wake-Steady current = Prog-ite _ _ _ (Prog-return _) (
      Prog-bind _ _ (Prog-lift _ (Runs-Steady wake_from_doze-Frame))
        λ _. transition_to-Steady active)
