-- ===== src/Sys/Fuel.antt =====
-- Functions that recur as deep as the directories go take fuel: `none` means that it ran out.
use mathlib.Core.Logic.{ite}
use fresh_core_native.Prelude.{Bool, true, false, Option, none, some, if◌then◌else◌}
use fresh_core_native.Sys.{Sys}
use fresh_core_native.Sys.Monad.{St, IsPreorder, Runs}

abbrev pub Prog : Type 0 → Type 0
Prog A = St (Option A)

module _ {A : Type 0} where
  unfoldable pub return : A → Prog A
  return a s = (some a, s)

  unfoldable pub out_of_fuel : Prog A
  out_of_fuel s = (none, s)

  unfoldable pub lift : St A → Prog A
  lift m s = let (a, t) = m s in (some a, t)

module _ {A B : Type 0} where
  abbrev pub continue : Option A → (A → Prog B) → Prog B
  continue none f s = (none, s)
  continue (some a) f s = f a s

  infixl 10 ◌>>=◌ ◌>>◌
  unfoldable pub ◌>>=◌ : Prog A → (A → Prog B) → Prog B
  unfolding return out_of_fuel lift
  ◌>>=◌ m f s = let (r, t) = m s in continue r f t

  abbrev pub ◌>>◌ : Prog A → Prog B → Prog B
  m >> k = m >>= λ _. k

module _ {R : Sys → Sys → Type 0} ⦃p : IsPreorder R⦄ where
  pub Prog-return : {A : Type 0} (a : A) → Runs R (return a)
  unfolding return
  Prog-return a = record { at = λ s. p.same s }

  pub Prog-out_of_fuel : {A : Type 0} → Runs R (out_of_fuel {A = A})
  unfolding out_of_fuel
  Prog-out_of_fuel = record { at = λ s. p.same s }

  pub Prog-lift : {A : Type 0} (m : St A) → Runs R m → Runs R (lift m)
  unfolding lift
  Prog-lift m h = record { at = λ s. h.at s }

  Prog-continue :
      {A B : Type 0} (r : Option A) (f : A → Prog B)
      → ((a : A) → Runs R (f a))
      → Runs R (continue r f)
  Prog-continue none f hf = record { at = λ s. p.same s }
  Prog-continue (some a) f hf = record { at = λ s. (hf a).at s }

  pub Prog-bind :
      {A B : Type 0} (m : Prog A) (f : A → Prog B)
      → Runs R m
      → ((a : A) → Runs R (f a))
      → Runs R (m >>= f)
  unfolding ◌>>=◌
  Prog-bind m f hm hf = record {
    at = λ s.
        p.trans s (m s).1 (continue (m s).0 f (m s).1).1 (hm.at s)
          ((Prog-continue (m s).0 f hf).at (m s).1);
  }

  pub Prog-if :
      {A : Type 0} (b : Bool) (m n : Prog A) → Runs R m → Runs R n → Runs R (if b then m else n)
  Prog-if true m n hm hn = hm
  Prog-if false m n hm hn = hn

  pub Prog-ite :
      {A : Type 0} {B : Type 0} (d : Dec B) (m n : Prog A)
      → Runs R m
      → Runs R n
      → Runs R (ite d m n)
  Prog-ite (yes _) m n hm hn = hm
  Prog-ite (no _) m n hm hn = hn

pub ruleset progs = (Prog-return, Prog-out_of_fuel, Prog-lift, Prog-bind, Prog-if, Prog-ite)

abbrev pub OnSome : {A : Type 0} → (A → Type 0) → Option A → Type 0
OnSome Q none = Unit
OnSome Q (some a) = Q a

-- Every result satisfies `Q`, where the fuel lasts.
pub record Returns {A : Type 0} (Q : A → Type 0) (m : Prog A) : Type 0 where
  pub at : (s : Sys) → OnSome Q (m s).0

module _ {A : Type 0} {Q : A → Type 0} where
  pub Returns-return : (a : A) → Q a → Returns Q (return a)
  unfolding return
  Returns-return a q = record { at = λ s. q }

  pub Returns-lift : (m : St A) → ((s : Sys) → Q (m s).0) → Returns Q (lift m)
  unfolding lift
  Returns-lift m h = record { at = h }

  pub Returns-out_of_fuel : Returns Q out_of_fuel
  unfolding out_of_fuel
  Returns-out_of_fuel = record { at = λ s. tt }

  pub Returns-if :
      (b : Bool) (m n : Prog A) → Returns Q m → Returns Q n → Returns Q (if b then m else n)
  Returns-if true m n hm hn = hm
  Returns-if false m n hm hn = hn

  Returns-continue :
      {B : Type 0} {T : B → Type 0} (r : Option B) (f : B → Prog A)
      → OnSome T r
      → ((b : B) → T b → Returns Q (f b))
      → Returns Q (continue r f)
  Returns-continue none f hr hf = record { at = λ s. tt }
  Returns-continue (some b) f hr hf = record { at = λ s. (hf b hr).at s }

  pub Returns-bind :
      {B : Type 0} {T : B → Type 0} (m : Prog B) (f : B → Prog A)
      → Returns T m
      → ((b : B) → T b → Returns Q (f b))
      → Returns Q (m >>= f)
  unfolding ◌>>=◌
  Returns-bind {T} m f hm hf = record {
    at = λ s. (Returns-continue {T = T} (m s).0 f (hm.at s) hf).at (m s).1;
  }

OnSome-any : {A : Type 0} (r : Option A) → OnSome (λ _. Unit {0}) r
OnSome-any none = tt
OnSome-any (some a) = tt

-- Nothing is asked of the result.
pub Returns-any : {A : Type 0} (m : Prog A) → Returns (λ _. Unit {0}) m
Returns-any m = record { at = λ s. OnSome-any (m s).0 }

module _ {R : Sys → Sys → Type 0} ⦃p : IsPreorder R⦄ {A B : Type 0} {T : A → Type 0} where
  continue-knowing :
      (r : Option A) (f : A → Prog B)
      → OnSome T r
      → ((a : A) → T a → Runs R (f a))
      → Runs R (continue r f)
  continue-knowing none f hr hf = record { at = λ s. p.same s }
  continue-knowing (some a) f hr hf = record { at = λ s. (hf a hr).at s }

  -- What follows may rely on what is known of the result.
  pub Prog-bind_knowing :
      (m : Prog A) (f : A → Prog B)
      → Runs R m
      → Returns T m
      → ((a : A) → T a → Runs R (f a))
      → Runs R (m >>= f)
  unfolding ◌>>=◌
  Prog-bind_knowing m f hm km hf = record {
    at = λ s.
        p.trans s (m s).1 (continue (m s).0 f (m s).1).1 (hm.at s)
          ((continue-knowing (m s).0 f (km.at s) hf).at (m s).1);
  }
