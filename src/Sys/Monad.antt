-- ===== src/Sys/Monad.antt =====
-- The functions of the daemon as state passing, and statements about the states before and after,
-- with a rule for each way to build a function.
use fresh_core_native.Prelude.{
  ◌≡◌, refl, sym, ◌∙◌, ap, Bool, true, false, [], ◌∷◌, ◌++◌, append_assoc, All, All-append, All-map,
  if◌then◌else◌,
}
use fresh_core_native.Os.{Call, History}
use fresh_core_native.Sys.{Sys}

abbrev pub St : Type 0 → Type 0
St A = Sys → A × Sys

module _ {A : Type 0} where
  unfoldable pub pure : A → St A
  pure a s = (a, s)

  unfoldable pub gets : (Sys → A) → St A
  gets f s = (f s, s)

  -- A call of the operating system: it is recorded, and its answer depends on the calls before it.
  unfoldable pub perform : Call → (History → A) → St A
  perform c answer s = (answer s.calls, record s { calls = c ∷ s.calls })

unfoldable pub modify : (Sys → Sys) → St (Unit {0})
modify f s = (tt, f s)

module _ {A B : Type 0} where
  infixl 10 ◌>>=◌ ◌>>◌
  unfoldable pub ◌>>=◌ : St A → (A → St B) → St B
  unfolding pure gets perform modify
  ◌>>=◌ m f s = let (a, t) = m s in f a t

  abbrev pub ◌>>◌ : St A → St B → St B
  m >> k = m >>= λ _. k

pub record IsPreorder (R : Sys → Sys → Type 0) : Type 0 where
  pub same : (s : Sys) → R s s
  pub trans : (s t u : Sys) → R s t → R t u → R s u

-- Every run of `m` relates the state before it to the state after it.
pub record Runs {A : Type 0} (R : Sys → Sys → Type 0) (m : St A) : Type 0 where
  pub at : (s : Sys) → R s (m s).1

-- Every result of `m` satisfies `Q`.
pub record Yields {A : Type 0} (Q : A → Type 0) (m : St A) : Type 0 where
  pub at : (s : Sys) → Q (m s).0

module _ {A : Type 0} {Q : A → Type 0} where
  pub Yields-pure : (a : A) → Q a → Yields Q (pure a)
  unfolding pure
  Yields-pure a q = record { at = λ s. q }

  pub Yields-if : (b : Bool) (m n : St A) → Yields Q m → Yields Q n → Yields Q (if b then m else n)
  Yields-if true m n hm hn = hm
  Yields-if false m n hm hn = hn

  pub Yields-bind :
      {B : Type 0} (m : St B) (f : B → St A) → ((b : B) → Yields Q (f b)) → Yields Q (m >>= f)
  unfolding ◌>>=◌
  Yields-bind m f hf = record { at = λ s. (hf (m s).0).at (m s).1 }

module _ {R : Sys → Sys → Type 0} ⦃p : IsPreorder R⦄ where
  pub Runs-pure : {A : Type 0} (a : A) → Runs R (pure a)
  unfolding pure
  Runs-pure a = record { at = λ s. p.same s }

  pub Runs-gets : {A : Type 0} (f : Sys → A) → Runs R (gets f)
  unfolding gets
  Runs-gets f = record { at = λ s. p.same s }

  pub Runs-bind :
      {A B : Type 0} (m : St A) (f : A → St B)
      → Runs R m
      → ((a : A) → Runs R (f a))
      → Runs R (m >>= f)
  unfolding ◌>>=◌
  Runs-bind m f hm hf = record {
    at = λ s. p.trans s (m s).1 (f (m s).0 (m s).1).1 (hm.at s) ((hf (m s).0).at (m s).1);
  }

  pub Runs-if :
      {A : Type 0} (b : Bool) (m n : St A) → Runs R m → Runs R n → Runs R (if b then m else n)
  Runs-if true m n hm hn = hm
  Runs-if false m n hm hn = hn

  pub Runs-modify : (f : Sys → Sys) → ((s : Sys) → R s (f s)) → Runs R (modify f)
  unfolding modify
  Runs-modify f h = record { at = h }

-- The calls that were made from `s` to `t` all satisfy `Q`.
pub record Emits (Q : Call → Type 0) (s t : Sys) : Type 0 where
  pub new : History
  pub calls : t.calls ≡ new ++ s.calls
  pub each : All Q new

module _ {Q : Call → Type 0} where
  pub Emits-same : {s t : Sys} → t.calls ≡ s.calls → Emits Q s t
  Emits-same e = record { new = []; calls = e; each = tt }

  Emits-trans : (s t u : Sys) → Emits Q s t → Emits Q t u → Emits Q s u
  Emits-trans s t u a b = record {
    new = b.new ++ a.new;
    calls =
        b.calls ∙ ap (λ (h : History). b.new ++ h) a.calls ∙ sym (append_assoc b.new a.new s.calls);
    each = All-append Q b.new a.new b.each a.each;
  }

  instance pub Emits-IsPreorder : IsPreorder (Emits Q)
  Emits-IsPreorder = record { same = λ s. Emits-same refl; trans = Emits-trans }

  pub Emits-perform :
      {A : Type 0} (c : Call) (answer : History → A) → Q c → Runs (Emits Q) (perform c answer)
  unfolding perform
  Emits-perform c answer q = record {
    at = λ s. record { new = c ∷ []; calls = refl; each = (q, tt) };
  }

  pub Emits-modify :
      (f : Sys → Sys) → ((s : Sys) → (f s).calls ≡ s.calls) → Runs (Emits Q) (modify f)
  Emits-modify f h = Runs-modify f (λ s. Emits-same (h s))

pub Emits-weaken :
    {Q R : Call → Type 0} {s t : Sys} → ((c : Call) → Q c → R c) → Emits Q s t → Emits R s t
Emits-weaken {Q} {R} h e = record {
  new = e.new;
  calls = e.calls;
  each = All-map Q R h e.new e.each;
}

pub ruleset runs = (Runs-pure, Runs-gets, Runs-bind, Runs-if)

pub ruleset emits = (runs, Emits-perform, Emits-modify)
