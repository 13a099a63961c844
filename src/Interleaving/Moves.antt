-- ===== src/Interleaving/Moves.antt =====
-- The engine goes along the state diagram, whatever turns the event loop takes.
use fresh_core_native.Prelude.{
  ℕ, ◌≡◌, subst, sym, Bytes, Bool, true, false, Option, none, some, List, [], ◌∷◌, if◌then◌else◌,
}
use fresh_core_native.Engine.{EngineState}
use fresh_core_native.Os.{Env}
use fresh_core_native.Sys.{Sys}
use fresh_core_native.Sys.Monad.{Runs}
use fresh_core_native.Sys.Fuel.{Prog, return, continue, OnSome, ◌>>=◌}
use fresh_core_native.Sys.Frame.{Frame, Frame-IsPreorder, frames}
use fresh_core_native.Decision.{evaluate_and_transition, get_current_state}
use fresh_core_native.Decision.Graph.{◌⟶◌, returned_moves}
use fresh_core_native.Scheduler.{set_timer, rearm, handle_timer, handle_ready}

-- Any number of moves.
infix 40 ◌⟶*◌
pub data ◌⟶*◌ (e : EngineState) : EngineState → Type 0 where
  rest : e ⟶* e
  move : {f g : EngineState} → e ⟶* f → f ⟶ g → e ⟶* g

pub ⟶*_trans : {e f g : EngineState} → e ⟶* f → f ⟶* g → e ⟶* g
⟶*_trans p rest = p
⟶*_trans p (move q m) = move (⟶*_trans p q) m

pub ⟶*-same : {e f : EngineState} → f ≡ e → e ⟶* f
⟶*-same {e} same = subst (λ x. e ⟶* x) (sym same) rest

-- Where `m` returns, the engine has gone along the diagram.
record Moves {A : Type 0} (m : Prog A) : Type 0 where
  at : (s : Sys) → OnSome (λ _. s.engine ⟶* (m s).1.engine) (m s).0

OnSome-map :
    {A : Type 0} {P Q : Type 0} (r : Option A) → (P → Q) → OnSome (λ _. P) r → OnSome (λ _. Q) r
OnSome-map none f h = tt
OnSome-map (some a) f h = f h

OnSome-all : {A : Type 0} {P : Type 0} (r : Option A) → P → OnSome (λ _. P) r
OnSome-all none h = tt
OnSome-all (some a) h = h

module _ {A : Type 0} where
  Moves-Frame : {P : Bytes → Type 0} (m : Prog A) → Runs (Frame P) m → Moves m
  Moves-Frame m h = record { at = λ s. OnSome-all (m s).0 (⟶*-same (h.at s).engine) }

  Moves-if : (b : Bool) (m n : Prog A) → Moves m → Moves n → Moves (if b then m else n)
  Moves-if true m n hm hn = hm
  Moves-if false m n hm hn = hn

module _ {A B : Type 0} where
  continue-Moves :
      (e : EngineState) (r : Option A) (f : A → Prog B) (t : Sys)
      → OnSome (λ _. e ⟶* t.engine) r
      → ((a : A) → Moves (f a))
      → OnSome (λ _. e ⟶* (continue r f t).1.engine) (continue r f t).0
  continue-Moves e none f t h hf = tt
  continue-Moves e (some a) f t h hf = OnSome-map (f a t).0 (⟶*_trans h) ((hf a).at t)

  Moves-bind : (m : Prog A) (f : A → Prog B) → Moves m → ((a : A) → Moves (f a)) → Moves (m >>= f)
  unfolding ◌>>=◌
  Moves-bind m f hm hf = record { at = λ s. continue-Moves s.engine (m s).0 f (m s).1 (hm.at s) hf }

module _ ⦃env : Env⦄ (fuel : ℕ) where
  evaluate-Moves : Moves (evaluate_and_transition fuel)
  evaluate-Moves = record {
    at = λ s. OnSome-map (evaluate_and_transition fuel s).0 (move rest) (returned_moves fuel s);
  }

  rearm-Moves : Moves rearm
  unfolding rearm set_timer get_current_state
  rearm-Moves = Moves-Frame {P = λ _. ⊥} _ (search frames depth 20)

  handle_timer-Moves : Moves (handle_timer fuel)
  unfolding handle_timer
  handle_timer-Moves =
      Moves-bind _ _ (Moves-Frame {P = λ _. ⊥} _ (search frames depth 10)) λ readable.
        Moves-if _ _ _ (Moves-bind _ _ evaluate-Moves λ _. rearm-Moves)
          (Moves-Frame {P = λ _. ⊥} (return tt) (search frames))

  handle_ready-Moves : (fds : List Bool) → Moves (handle_ready fuel fds)
  unfolding handle_ready
  handle_ready-Moves [] = Moves-Frame {P = λ _. ⊥} _ (search frames)
  handle_ready-Moves (true ∷ fds) = Moves-bind _ _ handle_timer-Moves λ _. handle_ready-Moves fds
  handle_ready-Moves (false ∷ fds) =
      Moves-bind _ _ (Moves-Frame {P = λ _. ⊥} (return tt) (search frames))
        λ _. handle_ready-Moves fds

  -- Where a turn of the event loop returns, the engine has gone along the diagram.
  pub handle_ready_moves :
      (fds : List Bool) (s : Sys)
      → (handle_ready fuel fds s).0 ≡ some tt
      → s.engine ⟶* (handle_ready fuel fds s).1.engine
  handle_ready_moves fds s e =
      subst (OnSome (λ _. s.engine ⟶* (handle_ready fuel fds s).1.engine)) e
        ((handle_ready-Moves fds).at s)
