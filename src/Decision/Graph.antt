-- ===== src/Decision/Graph.antt =====
-- The state diagram of the engine, as it is seen between two evaluations.
use mathlib.Core.Logic.{ite}
use fresh_core_native.Prelude.{
  ◌<◌, ℕ, ◌≡◌, refl, ◌∙◌, ◌⊎◌, inl, inr, Bool, true, false, Option, none, some, List, if◌then◌else◌,
}
use fresh_core_native.CacheData.{CacheDirInfo}
use fresh_core_native.Engine.{
  EngineState, boot, active, screen_off, idle_candidate, deep_idle, maintenance, aborting,
  error_backoff, EngineState-discrete,
}
use fresh_core_native.Os.{Env}
use fresh_core_native.Sys.{Sys}
use fresh_core_native.Sys.Monad.{Runs}
use fresh_core_native.Sys.Monad
use fresh_core_native.Sys.Fuel.{Prog, Prog-lift, return, lift, OnSome, ◌>>=◌, ◌>>◌}
use fresh_core_native.Sys.Frame.{Frame-IsPreorder}
use fresh_core_native.Sys.Arrives.{Arrives, Arrives-return, Arrives-if, Arrives-after, Arrives-any}
use fresh_core_native.Power.Idle.{IdleState, evaluate_idle_state}
use fresh_core_native.Power.Idle.Calls.{evaluate_idle_state-Frame}
use fresh_core_native.Tweaks.{wake_from_doze}
use fresh_core_native.Tweaks.Calls.{wake_from_doze-Frame}
use fresh_core_native.Cache.Cleaner.{is_not_idle}
use fresh_core_native.Decision.Termination.{evaluate_and_transition-Finishes}
use fresh_core_native.Filesystem.Limits.{PathLimit}
use fresh_core_native.Sys.Finishes.{known}
use fresh_core_native.Decision.{
  change_state, transition_to, finish_maintenance, clean_scanned, perform_maintenance, advance,
  wake, evaluate_and_transition, get_current_state,
}

-- The moves of one evaluation. Maintenance runs within one, and ends in `active` or `aborting`.
infix 40 ◌⟶◌
pub data ◌⟶◌ : EngineState → EngineState → Type 0 where
  wake_up : {e : EngineState} → e ⟶ active
  boot_off : boot ⟶ screen_off
  active_off : active ⟶ screen_off
  stay_off : screen_off ⟶ screen_off
  candidate : screen_off ⟶ idle_candidate
  deepen : idle_candidate ⟶ deep_idle
  abort : deep_idle ⟶ aborting
  stay_maintenance : maintenance ⟶ maintenance

module _ ⦃env : Env⦄ where
  changed-engine :
      (current e : EngineState) (d : Dec (current ≡ e)) (s : Sys)
      → s.engine ≡ current
      → OnSome
          (λ _. (ite d (return tt) (change_state current e) s).1.engine ≡ e)
          (ite d (return tt) (change_state current e) s).0
  unfolding change_state ◌>>=◌ Monad.modify
  changed-engine current e (yes same) s h = h ∙ same
  changed-engine current e (no other) s h = refl

  -- TransitionTo ends in the state that it is given.
  transition_to-engine :
      (e : EngineState) (s : Sys)
      → OnSome (λ _. (transition_to e s).1.engine ≡ e) (transition_to e s).0
  unfolding transition_to get_current_state ◌>>=◌ Monad.gets
  transition_to-engine e s = changed-engine s.engine e (EngineState-discrete s.engine e) s refl

  OnSome-subst :
      {A : Type 0} (Q : EngineState → Type 0) (e e' : EngineState) (r : Option A)
      → OnSome (λ _. e' ≡ e) r
      → Q e
      → OnSome (λ _. Q e') r
  OnSome-subst Q e e' none h q = tt
  OnSome-subst Q e e' (some a) h q = rw h q

  module _ {e : EngineState} {Q : EngineState → Type 0} where
    transition_to-Arrives : (e' : EngineState) → Q e' → Arrives e Q (transition_to e')
    transition_to-Arrives e' q = record {
      at = λ s h.
          OnSome-subst Q e' (transition_to e' s).1.engine (transition_to e' s).0
            (transition_to-engine e' s) q;
    }

  -- Maintenance ends in ACTIVE or ABORTING.
  abbrev Ended : EngineState → Type 0
  Ended e = (e ≡ active) ⊎ (e ≡ aborting)

  from_deep_idle : (t : EngineState) → Ended t → deep_idle ⟶ t
  from_deep_idle t (inl e) = rw e wake_up
  from_deep_idle t (inr e) = rw e abort

  Ended-some :
      {A : Type 0} (t : EngineState) (r : Option A)
      → OnSome (λ _. Ended t) r
      → OnSome (λ _. deep_idle ⟶ t) r
  Ended-some t none h = tt
  Ended-some t (some a) h = from_deep_idle t h

  finish_maintenance-Arrives :
      (e : EngineState) (done : Bool) → Arrives e Ended (finish_maintenance done)
  unfolding finish_maintenance
  finish_maintenance-Arrives e true =
      Arrives-any _ _ λ e' _. transition_to-Arrives active (inl refl)
  finish_maintenance-Arrives e false = transition_to-Arrives aborting (inr refl)

  clean_scanned-Arrives :
      (fuel : ℕ) (e : EngineState) (scanned : Option (List CacheDirInfo))
      → Arrives e Ended (clean_scanned fuel scanned)
  unfolding clean_scanned
  clean_scanned-Arrives fuel e none = transition_to-Arrives aborting (inr refl)
  clean_scanned-Arrives fuel e (some dirs) =
      Arrives-any _ _ λ _ targets. Arrives-any _ _ finish_maintenance-Arrives

  perform_maintenance-Arrives :
      (fuel : ℕ) (e : EngineState) → Arrives e Ended (perform_maintenance fuel)
  unfolding perform_maintenance
  perform_maintenance-Arrives fuel e = Arrives-any _ _ λ _ _. Arrives-any _ _ λ e₂ on.
      Arrives-if _ _ _ (transition_to-Arrives aborting (inr refl))
        (Arrives-any _ _ λ _ packages. Arrives-any _ _ (clean_scanned-Arrives fuel))

  advance-Arrives :
      (fuel : ℕ) (idle : IdleState) (e : EngineState) → Arrives e (λ t. e ⟶ t) (advance fuel idle e)
  unfolding advance
  advance-Arrives fuel idle boot = transition_to-Arrives screen_off boot_off
  advance-Arrives fuel idle active = transition_to-Arrives screen_off active_off
  advance-Arrives fuel idle screen_off =
      Arrives-if _ _ _ (transition_to-Arrives idle_candidate candidate) (Arrives-return tt stay_off)
  advance-Arrives fuel idle idle_candidate = transition_to-Arrives deep_idle deepen
  advance-Arrives fuel idle deep_idle =
      Arrives-any _ _ λ e _. ended (perform_maintenance-Arrives fuel e)
    where
      ended :
          {e : EngineState} {m : Prog (Unit {0})}
          → Arrives e Ended m
          → Arrives e (λ t. deep_idle ⟶ t) m
      ended {m} h = record { at = λ s same. Ended-some (m s).1.engine (m s).0 (h.at s same) }
  advance-Arrives fuel idle maintenance = Arrives-return tt stay_maintenance
  advance-Arrives fuel idle aborting = transition_to-Arrives active wake_up
  advance-Arrives fuel idle error_backoff = transition_to-Arrives active wake_up

  wake_cases :
      (e : EngineState) (d : Dec (e ≡ active))
      → Arrives e (λ t. e ⟶ t) (ite d (return tt) (do lift wake_from_doze; transition_to active))
  wake_cases e (yes same) = Arrives-return tt (rw same wake_up)
  wake_cases e (no other) =
      Arrives-after {P = λ _. Unit} _ _ (Prog-lift _ wake_from_doze-Frame)
        λ _. transition_to-Arrives active wake_up

  wake-Arrives : (e : EngineState) → Arrives e (λ t. e ⟶ t) (wake e)
  unfolding wake
  wake-Arrives e = wake_cases e (EngineState-discrete e active)

  decide-Arrives :
      (fuel : ℕ) (e : EngineState)
      → Arrives e
          (λ t. e ⟶ t)
          (do
            idle ← lift evaluate_idle_state
            if is_not_idle idle then wake e else advance fuel idle e)
  decide-Arrives fuel e =
      Arrives-after {P = λ _. Unit} _ _ (Prog-lift _ evaluate_idle_state-Frame)
        λ idle. Arrives-if _ _ _ (wake-Arrives e) (advance-Arrives fuel idle e)

  pub returned_moves :
      (fuel : ℕ) (s : Sys)
      → OnSome
          (λ _. s.engine ⟶ (evaluate_and_transition fuel s).1.engine)
          (evaluate_and_transition fuel s).0
  unfolding evaluate_and_transition get_current_state ◌>>=◌ Monad.gets
  returned_moves fuel s = (decide-Arrives fuel s.engine).at s refl

  -- With a fuel of 4097, on every device that refuses to open paths of PATH_MAX bytes, one evaluation
  -- moves the engine along an edge of the diagram.
  pub evaluate_and_transition_moves :
      PathLimit env.open_dir
      → (fuel : ℕ) → 4096 < fuel
      → (s : Sys) → s.engine ⟶ (evaluate_and_transition fuel s).1.engine
  evaluate_and_transition_moves limit fuel enough s =
      known (evaluate_and_transition fuel s).0
        ((evaluate_and_transition-Finishes limit fuel enough).at s) (returned_moves fuel s)
