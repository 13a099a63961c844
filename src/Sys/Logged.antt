-- ===== src/Sys/Logged.antt =====
-- What changes nothing but the log: the calls made and the logger's variables.
use fresh_core_native.Prelude.{◌≡◌, refl, ◌∙◌, ap}
use fresh_core_native.Os.{Call, History}
use fresh_core_native.Sys.{Sys}
use fresh_core_native.Sys.Monad.{IsPreorder, Runs, Runs-modify, runs, perform, modify}

pub record Logged (s t : Sys) : Type 0 where
  pub rest : t ≡ record s { calls = t.calls; logger = t.logger }

instance pub Logged-IsPreorder : IsPreorder Logged
Logged-IsPreorder = record {
  same = λ s. record { rest = refl };
  trans = λ s t u a b. record {
    rest = b.rest ∙ ap (λ (x : Sys). record x { calls = u.calls; logger = u.logger }) a.rest;
  };
}

pub Logged-perform : {A : Type 0} (c : Call) (answer : History → A) → Runs Logged (perform c answer)
unfolding perform
Logged-perform c answer = record { at = λ s. record { rest = refl } }

pub Logged-modify :
    (f : Sys → Sys)
    → ((s : Sys) → f s ≡ record s { calls = (f s).calls; logger = (f s).logger })
    → Runs Logged (modify f)
Logged-modify f h = Runs-modify f (λ s. record { rest = h s })

pub ruleset logged = (runs, Logged-perform, Logged-modify)
