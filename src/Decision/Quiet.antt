-- ===== src/Decision/Quiet.antt =====
-- Which evaluations remove nothing: those that find the screen on, and those outside of deep idle.
use fresh_core_native.Prelude.{ℕ, ◌≡◌, ◌≢◌, refl, ◌⊎◌, inl, inr, if◌then◌else◌}
use fresh_core_native.Engine.{
  EngineState, boot, active, screen_off, idle_candidate, deep_idle, maintenance, aborting,
  error_backoff,
}
use fresh_core_native.Os.{Env}
use fresh_core_native.Sys.{Sys}
use fresh_core_native.Sys.Monad.{Runs}
use fresh_core_native.Sys.Monad
use fresh_core_native.Sys.Fuel.{Prog-if, Prog-return, ◌>>=◌}
use fresh_core_native.Sys.Frame.{Steady, Steady-IsPreorder, Runs-Steady}
use fresh_core_native.Power.Idle.{IdleState, not_idle, evaluate_idle_state}
use fresh_core_native.Power.Idle.Calls.{evaluate_idle_state-Frame}
use fresh_core_native.Cache.Cleaner.{is_not_idle}
use fresh_core_native.Decision.Calls.{transition_to-Steady, wake-Steady}
use fresh_core_native.Decision.{advance, wake, evaluate_and_transition, get_current_state}

-- Nothing is removed, and the configuration stays.
abbrev pub Keeps : Sys → Sys → Type 0
Keeps = Steady (λ _. ⊥)

module _ ⦃env : Env⦄ (fuel : ℕ) where
  advance-Keeps :
      (idle : IdleState) (e : EngineState) → e ≢ deep_idle → Runs Keeps (advance fuel idle e)
  unfolding advance
  advance-Keeps idle boot ne = transition_to-Steady screen_off
  advance-Keeps idle active ne = transition_to-Steady screen_off
  advance-Keeps idle screen_off ne =
      Prog-if _ _ _ (transition_to-Steady idle_candidate) (Prog-return _)
  advance-Keeps idle idle_candidate ne = transition_to-Steady deep_idle
  advance-Keeps idle deep_idle ne = absurd (ne refl)
  advance-Keeps idle maintenance ne = Prog-return _
  advance-Keeps idle aborting ne = transition_to-Steady active
  advance-Keeps idle error_backoff ne = transition_to-Steady active

  decide-Keeps :
      (idle : IdleState) (e : EngineState)
      → (idle ≡ not_idle) ⊎ (e ≢ deep_idle)
      → Runs Keeps (if is_not_idle idle then wake e else advance fuel idle e)
  decide-Keeps idle e (inl awake) = rw awake (wake-Steady e)
  decide-Keeps idle e (inr ne) = Prog-if _ _ _ (wake-Steady e) (advance-Keeps idle e ne)

  -- On every device, an evaluation that finds the device not idle, or that begins in any state but
  -- DEEP_IDLE, calls neither rmdir nor unlink and leaves the configuration as it was.
  pub evaluate_and_transition-Keeps :
      (s : Sys)
      → ((evaluate_idle_state s).0 ≡ not_idle) ⊎ (s.engine ≢ deep_idle)
      → Keeps s (evaluate_and_transition fuel s).1
  unfolding evaluate_and_transition get_current_state ◌>>=◌ Monad.gets
  evaluate_and_transition-Keeps s h =
      Steady-IsPreorder.trans s (evaluate_idle_state s).1 _
        ((Runs-Steady evaluate_idle_state-Frame).at s)
        ((decide-Keeps (evaluate_idle_state s).0 s.engine h).at (evaluate_idle_state s).1)
