-- ===== src/Sys/Still.antt =====
-- What leaves the count of the files removed alone too: everything but EndBatch does.
use fresh_core_native.Prelude.{◌≡◌, refl, ◌∙◌, Bytes}
use fresh_core_native.Os.{Call, History}
use fresh_core_native.Sys.{Sys}
use fresh_core_native.Sys.Monad.{St, IsPreorder, Runs, Runs-modify, runs, perform, modify}
use fresh_core_native.Sys.Fuel.{progs}
use fresh_core_native.Sys.Frame.{MayRemove, Frame, Frame-IsPreorder, Frame-perform, Frame-modify}

-- Nothing is asked of the paths.
abbrev pub Anywhere : Bytes → Type 0
Anywhere path = Unit

pub record Still (P : Bytes → Type 0) (s t : Sys) : Type 0 where
  pub frame : Frame P s t
  pub files : t.totals.files_processed ≡ s.totals.files_processed

module _ {P : Bytes → Type 0} where
  instance pub Still-IsPreorder : IsPreorder (Still P)
  Still-IsPreorder = record {
    same = λ s. record { frame = Frame-IsPreorder.same s; files = refl };
    trans = λ s t u a b. record {
      frame = Frame-IsPreorder.trans s t u a.frame b.frame;
      files = b.files ∙ a.files;
    };
  }

  pub Still-perform :
      {A : Type 0} (c : Call) (answer : History → A)
      → MayRemove P c
      → Runs (Still P) (perform c answer)
  unfolding perform
  Still-perform c answer q = record {
    at = λ s. record { frame = (Frame-perform c answer q).at s; files = refl };
  }

  pub Still-modify :
      (f : Sys → Sys)
      → ((s : Sys) → (f s).calls ≡ s.calls)
      → ((s : Sys) → (f s).config ≡ s.config)
      → ((s : Sys) → (f s).mic ≡ s.mic)
      → ((s : Sys) → (f s).engine ≡ s.engine)
      → ((s : Sys) → (f s).totals.files_processed ≡ s.totals.files_processed)
      → Runs (Still P) (modify f)
  unfolding modify
  Still-modify f a b m c h = record {
    at = λ s. record { frame = (Frame-modify f a b m c).at s; files = h s };
  }

  pub Runs-Frame : {A : Type 0} {m : St A} → Runs (Still P) m → Runs (Frame P) m
  Runs-Frame h = record { at = λ s. (h.at s).frame }

-- What leaves the time since which the screen is off alone too.
pub record Sensed (P : Bytes → Type 0) (s t : Sys) : Type 0 where
  pub still : Still P s t
  pub time : t.screen_off_time ≡ s.screen_off_time

module _ {P : Bytes → Type 0} where
  instance pub Sensed-IsPreorder : IsPreorder (Sensed P)
  Sensed-IsPreorder = record {
    same = λ s. record { still = Still-IsPreorder.same s; time = refl };
    trans = λ s t u a b. record {
      still = Still-IsPreorder.trans s t u a.still b.still;
      time = b.time ∙ a.time;
    };
  }

  pub Sensed-perform :
      {A : Type 0} (c : Call) (answer : History → A)
      → MayRemove P c
      → Runs (Sensed P) (perform c answer)
  unfolding perform
  Sensed-perform c answer q = record {
    at = λ s. record { still = (Still-perform c answer q).at s; time = refl };
  }

  pub Sensed-modify :
      (f : Sys → Sys)
      → ((s : Sys) → (f s).calls ≡ s.calls)
      → ((s : Sys) → (f s).config ≡ s.config)
      → ((s : Sys) → (f s).mic ≡ s.mic)
      → ((s : Sys) → (f s).engine ≡ s.engine)
      → ((s : Sys) → (f s).totals.files_processed ≡ s.totals.files_processed)
      → ((s : Sys) → (f s).screen_off_time ≡ s.screen_off_time)
      → Runs (Sensed P) (modify f)
  unfolding modify
  Sensed-modify f a b m c h k = record {
    at = λ s. record { still = (Still-modify f a b m c h).at s; time = k s };
  }

  pub Runs-Still : {A : Type 0} {m : St A} → Runs (Sensed P) m → Runs (Still P) m
  Runs-Still h = record { at = λ s. (h.at s).still }

pub ruleset senses = (runs, progs, Sensed-perform, Sensed-modify)

pub ruleset stills = (runs, progs, Still-perform, Still-modify)
