-- ===== src/Sys/Frame.antt =====
-- What the daemon's functions leave alone. `Steady`: the configuration, the variables of the audio
-- thread, and all files but those of one kind. `Frame`: the state of the engine too.
use fresh_core_native.Prelude.{◌≡◌, refl, ◌∙◌, Bytes}
use fresh_core_native.Os.{Call, History, rmdir, unlink}
use fresh_core_native.Sys.{Sys}
use fresh_core_native.Sys.Monad.{
  St, IsPreorder, Runs, Runs-modify, runs, perform, modify, Emits, Emits-same, Emits-IsPreorder,
  Emits-perform,
}
use fresh_core_native.Sys.Fuel.{progs}

-- A call that removes a file removes one whose path satisfies `P`.
abbrev pub MayRemove : (Bytes → Type 0) → Call → Type 0
MayRemove P (rmdir path) = P path
MayRemove P (unlink path) = P path
MayRemove P _ = Unit

pub MayRemove-map :
    {P Q : Bytes → Type 0}
    → ((path : Bytes) → P path → Q path)
    → (c : Call) → MayRemove P c
    → MayRemove Q c
MayRemove-map f (rmdir path) h = f path h
MayRemove-map f (unlink path) h = f path h
MayRemove-map f _ h = tt

pub record Steady (P : Bytes → Type 0) (s t : Sys) : Type 0 where
  pub emits : Emits (MayRemove P) s t
  pub config : t.config ≡ s.config
  pub mic : t.mic ≡ s.mic

pub record Frame (P : Bytes → Type 0) (s t : Sys) : Type 0 where
  pub steady : Steady P s t
  pub engine : t.engine ≡ s.engine

module _ {P : Bytes → Type 0} where
  Steady-same : (s : Sys) → Steady P s s
  Steady-same s = record { emits = Emits-same refl; config = refl; mic = refl }

  Steady-trans : (s t u : Sys) → Steady P s t → Steady P t u → Steady P s u
  Steady-trans s t u a b = record {
    emits = Emits-IsPreorder.trans s t u a.emits b.emits;
    config = b.config ∙ a.config;
    mic = b.mic ∙ a.mic;
  }

  instance pub Steady-IsPreorder : IsPreorder (Steady P)
  Steady-IsPreorder = record { same = Steady-same; trans = Steady-trans }

  instance pub Frame-IsPreorder : IsPreorder (Frame P)
  Frame-IsPreorder = record {
    same = λ s. record { steady = Steady-same s; engine = refl };
    trans = λ s t u a b. record {
      steady = Steady-trans s t u a.steady b.steady;
      engine = b.engine ∙ a.engine;
    };
  }

  pub Steady-perform :
      {A : Type 0} (c : Call) (answer : History → A)
      → MayRemove P c
      → Runs (Steady P) (perform c answer)
  unfolding perform
  Steady-perform c answer q = record {
    at = λ s. record { emits = (Emits-perform c answer q).at s; config = refl; mic = refl };
  }

  pub Steady-modify :
      (f : Sys → Sys)
      → ((s : Sys) → (f s).calls ≡ s.calls)
      → ((s : Sys) → (f s).config ≡ s.config)
      → ((s : Sys) → (f s).mic ≡ s.mic)
      → Runs (Steady P) (modify f)
  Steady-modify f a b m =
      Runs-modify f (λ s. record { emits = Emits-same (a s); config = b s; mic = m s })

  pub Frame-perform :
      {A : Type 0} (c : Call) (answer : History → A)
      → MayRemove P c
      → Runs (Frame P) (perform c answer)
  unfolding perform
  Frame-perform c answer q = record {
    at = λ s. record { steady = (Steady-perform c answer q).at s; engine = refl };
  }

  pub Frame-modify :
      (f : Sys → Sys)
      → ((s : Sys) → (f s).calls ≡ s.calls)
      → ((s : Sys) → (f s).config ≡ s.config)
      → ((s : Sys) → (f s).mic ≡ s.mic)
      → ((s : Sys) → (f s).engine ≡ s.engine)
      → Runs (Frame P) (modify f)
  Frame-modify f a b m c = Runs-modify f λ s. record {
    steady = record { emits = Emits-same (a s); config = b s; mic = m s };
    engine = c s;
  }

  pub Runs-Steady : {A : Type 0} {m : St A} → Runs (Frame P) m → Runs (Steady P) m
  Runs-Steady h = record { at = λ s. (h.at s).steady }

pub ruleset steadies = (runs, progs, Steady-perform, Steady-modify)

pub ruleset frames = (runs, progs, Frame-perform, Frame-modify)
