-- ===== src/Scheduler/Patience.antt =====
-- How many ticks of the timer pass before the scheduler can remove a file.
pub mod Turns
use fresh_core_native.Prelude.{
  ℕ, zero, suc, ◌+◌, ◌≤◌, ◌≡◌, ◌≢◌, refl, sym, subst, inr, Bool, true, false, Option, none, some,
  List, [], ◌∷◌, if◌then◌else◌, arith,
}
use fresh_core_native.Engine.{
  EngineState, boot, active, screen_off, idle_candidate, deep_idle, maintenance, aborting,
  error_backoff,
}
use fresh_core_native.Os.{Env}
use fresh_core_native.Sys.{Sys}
use fresh_core_native.Sys.Monad.{St, Runs, perform}
use fresh_core_native.Sys.Fuel.{Prog, return, lift, continue, OnSome, ◌>>=◌}
use fresh_core_native.Sys.Frame.{Frame, Frame-perform, Frame-IsPreorder, frames, Steady-IsPreorder}
use fresh_core_native.Logging.Calls.{log-Frame}
use fresh_core_native.Decision.{evaluate_and_transition, get_current_state}
use fresh_core_native.Decision.Quiet.{Keeps, evaluate_and_transition-Keeps}
use fresh_core_native.Decision.Graph.{
  ◌⟶◌, wake_up, boot_off, active_off, stay_off, candidate, deepen, abort, stay_maintenance,
  returned_moves,
}
use fresh_core_native.Scheduler.{
  set_timer, Turn, signal, interrupted, failed, ready, rearm, handle_timer, handle_ready,
  event_loop, Ending, stopped, waiting, conclude, run_loop, watch_timer, create_timer,
  run_scheduler,
}

-- The evaluations that come before one that maintains. MAINTENANCE is left only by waking up.
abbrev pub patience : EngineState → ℕ
patience deep_idle = 0
patience idle_candidate = 1
patience screen_off = 2
patience boot = 3
patience active = 3
patience _ = 4

-- The readings of the timer in a list of ready descriptors, and in the turns of the loop.
abbrev pub ticks : List Bool → ℕ
ticks [] = 0
ticks (true ∷ fds) = 1 + ticks fds
ticks (false ∷ fds) = ticks fds

abbrev pub turn_ticks : List Turn → ℕ
turn_ticks [] = 0
turn_ticks (ready fds ∷ turns) = ticks fds + turn_ticks turns
turn_ticks (_ ∷ turns) = turn_ticks turns

patience_le : (e : EngineState) → patience e ≤ 4
patience_le boot = omega arith
patience_le active = omega arith
patience_le screen_off = omega arith
patience_le idle_candidate = omega arith
patience_le deep_idle = omega arith
patience_le maintenance = omega arith
patience_le aborting = omega arith
patience_le error_backoff = omega arith

pub move_spends : {e t : EngineState} → e ⟶ t → patience e ≤ 1 + patience t
move_spends (wake_up {e = e}) = patience_le e
move_spends boot_off = omega arith
move_spends active_off = omega arith
move_spends stay_off = omega arith
move_spends candidate = omega arith
move_spends deepen = omega arith
move_spends abort = omega arith
move_spends stay_maintenance = omega arith

pub patient-ne-deep_idle : (e : EngineState) → 1 ≤ patience e → e ≢ deep_idle
patient-ne-deep_idle e h same = absurd (omega (arith, subst (λ x. 1 ≤ patience x) same h))

-- Begun with a patience of at least `k`, `m` removes nothing, and takes at most `k` from it.
pub record Spends {A : Type 0} (k : ℕ) (m : Prog A) : Type 0 where
  pub keeps : (s : Sys) → k ≤ patience s.engine → Keeps s (m s).1
  pub left :
      (s : Sys)
      → k ≤ patience s.engine
      → OnSome (λ _. patience s.engine ≤ k + patience (m s).1.engine) (m s).0

module _ {A : Type 0} where
  pub Spends-return : (k : ℕ) (a : A) → Spends k (return a)
  unfolding return
  Spends-return k a = record { keeps = λ s h. Steady-IsPreorder.same s; left = λ s h. omega arith }

  pub Spends-if :
      (k : ℕ) (b : Bool) (m n : Prog A) → Spends k m → Spends k n → Spends k (if b then m else n)
  Spends-if k true m n hm hn = hm
  Spends-if k false m n hm hn = hn

OnSome-le :
    {C : Type 0} (j k p q n : ℕ) (r : Option C)
    → p ≤ j + q
    → OnSome (λ _. q ≤ k + n) r
    → OnSome (λ _. p ≤ j + k + n) r
OnSome-le j k p q n none h hr = tt
OnSome-le j k p q n (some c) h hr = omega arith

module _ {A B : Type 0} (j k : ℕ) where
  continue-keeps :
      (r : Option A) (f : A → Prog B) (s t : Sys)
      → j + k ≤ patience s.engine
      → Keeps s t
      → OnSome (λ _. patience s.engine ≤ j + patience t.engine) r
      → ((a : A) → Spends k (f a))
      → Keeps s (continue r f t).1
  continue-keeps none f s t h kept left hf = kept
  continue-keeps (some a) f s t h kept left hf =
      Steady-IsPreorder.trans s t _ kept ((hf a).keeps t (omega arith))

  continue-left :
      (r : Option A) (f : A → Prog B) (s t : Sys)
      → j + k ≤ patience s.engine
      → OnSome (λ _. patience s.engine ≤ j + patience t.engine) r
      → ((a : A) → Spends k (f a))
      → OnSome
          (λ _. patience s.engine ≤ j + k + patience (continue r f t).1.engine)
          (continue r f t).0
  continue-left none f s t h left hf = tt
  continue-left (some a) f s t h left hf =
      OnSome-le j k (patience s.engine) (patience t.engine) (patience (f a t).1.engine) (f a t).0
        left ((hf a).left t (omega arith))

  pub Spends-bind :
      (m : Prog A) (f : A → Prog B)
      → Spends j m
      → ((a : A) → Spends k (f a))
      → Spends (j + k) (m >>= f)
  unfolding ◌>>=◌
  Spends-bind m f hm hf = record {
    keeps = λ s h.
        continue-keeps (m s).0 f s (m s).1 h (hm.keeps s (omega arith)) (hm.left s (omega arith))
          hf;
    left = λ s h. continue-left (m s).0 f s (m s).1 h (hm.left s (omega arith)) hf;
  }

-- What leaves the engine alone and removes nothing spends nothing.
module _ {A : Type 0} where
  Spends-weaken : (j k : ℕ) (m : Prog A) → j ≤ k → Spends j m → Spends k m
  Spends-weaken j k m le h = record {
    keeps = λ s at_least. h.keeps s (omega arith);
    left = λ s at_least.
        OnSome-weaken (patience s.engine) (patience (m s).1.engine) (m s).0
          (h.left s (omega arith));
  }
    where
      OnSome-weaken :
          (p n : ℕ) (r : Option A) → OnSome (λ _. p ≤ j + n) r → OnSome (λ _. p ≤ k + n) r
      OnSome-weaken p n none hr = tt
      OnSome-weaken p n (some a) hr = omega arith

  Spends-Frame : (m : Prog A) → Runs (Frame (λ _. ⊥)) m → Spends 0 m
  Spends-Frame m h = record {
    keeps = λ s _. (h.at s).steady;
    left = λ s _. same_engine (m s).0 s (m s).1 (h.at s).engine;
  }
    where
      same_engine :
          (r : Option A) (s t : Sys)
          → t.engine ≡ s.engine
          → OnSome (λ _. patience s.engine ≤ 0 + patience t.engine) r
      same_engine none s t e = tt
      same_engine (some a) s t e = rw e (omega arith)

module _ {A B : Type 0} (k : ℕ) (m : Prog A) (f : A → Prog B) where
  pub Spends-after : Runs (Frame (λ _. ⊥)) m → ((a : A) → Spends k (f a)) → Spends k (m >>= f)
  Spends-after hm hf =
      Spends-weaken (0 + k) k (m >>= f) (omega arith) (Spends-bind 0 k m f (Spends-Frame m hm) hf)

  pub Spends-before : Spends k m → ((a : A) → Runs (Frame (λ _. ⊥)) (f a)) → Spends k (m >>= f)
  Spends-before hm hf =
      Spends-weaken (k + 0) k (m >>= f) (omega arith)
        (Spends-bind k 0 m f hm λ a. Spends-Frame (f a) (hf a))
