-- ===== src/Sys/Finishes.antt =====
-- Functions whose fuel does not run out.
use mathlib.Core.Logic.{ite}
use fresh_core_native.Prelude.{Bool, true, false, Option, none, some, if◌then◌else◌}
use fresh_core_native.Sys.{Sys}
use fresh_core_native.Sys.Monad.{St}
use fresh_core_native.Sys.Fuel.{Prog, return, lift, continue, OnSome, ◌>>=◌}

abbrev pub IsDefined : {A : Type 0} → Option A → Type 0
IsDefined none = ⊥
IsDefined (some _) = Unit

-- What holds of a result that there is.
pub known : {A : Type 0} {Q : Type 0} (r : Option A) → IsDefined r → OnSome (λ _. Q) r → Q
known none d h = absurd d
known (some a) d h = h

-- From every state `m` returns a result.
pub record Finishes {A : Type 0} (m : Prog A) : Type 0 where
  pub at : (s : Sys) → IsDefined (m s).0

module _ {A : Type 0} where
  pub Finishes-return : (a : A) → Finishes (return a)
  unfolding return
  Finishes-return a = record { at = λ s. tt }

  pub Finishes-lift : (m : St A) → Finishes (lift m)
  unfolding lift
  Finishes-lift m = record { at = λ s. tt }

  pub Finishes-if :
      (b : Bool) (m n : Prog A) → Finishes m → Finishes n → Finishes (if b then m else n)
  Finishes-if true m n hm hn = hm
  Finishes-if false m n hm hn = hn

  pub Finishes-ite :
      {B : Type 0} (d : Dec B) (m n : Prog A) → Finishes m → Finishes n → Finishes (ite d m n)
  Finishes-ite (yes _) m n hm hn = hm
  Finishes-ite (no _) m n hm hn = hn

module _ {A B : Type 0} where
  Finishes-continue :
      (r : Option A) (f : A → Prog B)
      → IsDefined r
      → ((a : A) → Finishes (f a))
      → Finishes (continue r f)
  Finishes-continue none f hr hf = absurd hr
  Finishes-continue (some a) f hr hf = record { at = λ s. (hf a).at s }

  pub Finishes-bind :
      (m : Prog A) (f : A → Prog B) → Finishes m → ((a : A) → Finishes (f a)) → Finishes (m >>= f)
  unfolding ◌>>=◌
  Finishes-bind m f hm hf = record {
    at = λ s. (Finishes-continue (m s).0 f (hm.at s) hf).at (m s).1;
  }

  -- What follows may rely on what is known of the result.
  pub Finishes-bind_knowing :
      {Q : A → Type 0} (m : St A) (f : A → Prog B)
      → ((s : Sys) → Q (m s).0)
      → ((a : A) → Q a → Finishes (f a))
      → Finishes (lift m >>= f)
  unfolding ◌>>=◌
  Finishes-bind_knowing m f hm hf = record { at = λ s. (hf (m s).0 (hm s)).at (m s).1 }

pub ruleset finishes = (Finishes-return, Finishes-lift, Finishes-if, Finishes-ite, Finishes-bind)
