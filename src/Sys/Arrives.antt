-- ===== src/Sys/Arrives.antt =====
-- The state of the engine when a function returns.
use fresh_core_native.Prelude.{
  ◌≡◌, ◌∙◌, Bytes, Bool, true, false, Option, none, some, if◌then◌else◌,
}
use fresh_core_native.Engine.{EngineState}
use fresh_core_native.Sys.{Sys}
use fresh_core_native.Sys.Monad.{Runs}
use fresh_core_native.Sys.Fuel.{Prog, return, continue, OnSome, ◌>>=◌}
use fresh_core_native.Sys.Frame.{Frame}

-- Begun in the state `e`, `m` returns in a state that satisfies `Q`.
pub record Arrives {A : Type 0} (e : EngineState) (Q : EngineState → Type 0) (m : Prog A)
    : Type 0 where
  pub at : (s : Sys) → s.engine ≡ e → OnSome (λ _. Q (m s).1.engine) (m s).0

module _ {A : Type 0} {e : EngineState} {Q : EngineState → Type 0} where
  pub Arrives-return : (a : A) → Q e → Arrives e Q (return a)
  unfolding return
  Arrives-return a q = record { at = λ s h. rw h q }

  pub Arrives-if :
      (b : Bool) (m n : Prog A) → Arrives e Q m → Arrives e Q n → Arrives e Q (if b then m else n)
  Arrives-if true m n hm hn = hm
  Arrives-if false m n hm hn = hn

module _ {A B : Type 0} {e : EngineState} {Q : EngineState → Type 0} where
  continue-engine :
      (r : Option A) (f : A → Prog B) (t : Sys)
      → t.engine ≡ e
      → ((a : A) → Arrives e Q (f a))
      → OnSome (λ _. Q (continue r f t).1.engine) (continue r f t).0
  continue-engine none f t h hf = tt
  continue-engine (some a) f t h hf = (hf a).at t h

  -- A function that leaves the engine alone.
  pub Arrives-after :
      {P : Bytes → Type 0} (m : Prog A) (f : A → Prog B)
      → Runs (Frame P) m
      → ((a : A) → Arrives e Q (f a))
      → Arrives e Q (m >>= f)
  unfolding ◌>>=◌
  Arrives-after m f hm hf = record {
    at = λ s h. continue-engine (m s).0 f (m s).1 ((hm.at s).engine ∙ h) hf;
  }

module _ {A B : Type 0} {Q : EngineState → Type 0} where
  continue-any :
      (r : Option A) (f : A → Prog B) (t : Sys)
      → ((e' : EngineState) (a : A) → Arrives e' Q (f a))
      → OnSome (λ _. Q (continue r f t).1.engine) (continue r f t).0
  continue-any none f t hf = tt
  continue-any (some a) f t hf = (hf t.engine a).at t (λ i. t.engine)

module _ {A B : Type 0} {e : EngineState} {Q : EngineState → Type 0} where
  -- Any function, where what follows arrives from every state.
  pub Arrives-any :
      (m : Prog A) (f : A → Prog B)
      → ((e' : EngineState) (a : A) → Arrives e' Q (f a))
      → Arrives e Q (m >>= f)
  unfolding ◌>>=◌
  Arrives-any m f hf = record { at = λ s h. continue-any (m s).0 f (m s).1 hf }
