-- ===== src/Audio/Isolation.antt =====
-- What the thread of audio/mic_fixer.cpp shares with the rest of the daemon: the log, and g_running,
-- which it only reads.
use fresh_core_native.Prelude.{◌≡◌, refl, sym, ◌∙◌, ap, Bytes, String, List, [], ◌∷◌}
use fresh_core_native.Os.{Env, Call, History, LogLevel, Arg}
use fresh_core_native.Sys.{Sys}
use fresh_core_native.Sys.Monad.{
  IsPreorder, Runs, Runs-pure, Runs-bind, Runs-if, Runs-modify, runs, Emits, Emits-same,
  Emits-perform, Emits-IsPreorder, perform, modify,
}
use fresh_core_native.Sys.Frame.{MayRemove}
use fresh_core_native.Logging.{log}
use fresh_core_native.Logging.Calls.{log-Frame, log-Logged}
use fresh_core_native.Audio.Commands.{
  exec_command, report_route, run_tinymix, set_tinymix_path, discover_tinymix,
}
use fresh_core_native.Audio.Routes.{
  Route, pre_init_routes, mic_routes, unmute_routes, run_routes, apply_pre_init, apply_mic_fix,
  show_notification,
}

-- Only the log, its variables and the path of tinymix change, and no file is removed.
pub record Apart (s t : Sys) : Type 0 where
  pub rest : t ≡ record s {
    calls = t.calls;
    logger = t.logger;
    mic = record s.mic { tinymix_path = t.mic.tinymix_path };
  }
  pub emits : Emits (MayRemove (λ _. ⊥)) s t

instance pub Apart-IsPreorder : IsPreorder Apart
Apart-IsPreorder = record {
  same = λ s. record { rest = refl; emits = Emits-same refl };
  trans = λ s t u a b. record {
    rest =
        b.rest
        ∙ ap
            (λ (x : Sys). record x {
              calls = u.calls;
              logger = u.logger;
              mic = record x.mic { tinymix_path = u.mic.tinymix_path };
            })
            a.rest;
    emits = Emits-IsPreorder.trans s t u a.emits b.emits;
  };
}

pub Apart-perform :
    {A : Type 0} (c : Call) (answer : History → A)
    → MayRemove (λ _. ⊥) c
    → Runs Apart (perform c answer)
unfolding perform
Apart-perform c answer q = record {
  at = λ s. record { rest = refl; emits = (Emits-perform c answer q).at s };
}

pub ruleset apart = (runs, Apart-perform)

module _ ⦃env : Env⦄ where
  pub log-Apart :
      (level : LogLevel) (format : String) (args : List Arg) → Runs Apart (log level format args)
  log-Apart level format args = record {
    at = λ s. record {
      rest = logged s _ ((log-Logged level format args).at s).rest;
      emits = ((log-Frame level format args).at s).steady.emits;
    };
  }
    where
      logged :
          (s t : Sys)
          → t ≡ record s { calls = t.calls; logger = t.logger }
          → t ≡ record s {
            calls = t.calls;
            logger = t.logger;
            mic = record s.mic { tinymix_path = t.mic.tinymix_path };
          }
      logged s t e =
          e
          ∙ ap
              (λ (path : Bytes). record s {
                calls = t.calls;
                logger = t.logger;
                mic = record s.mic { tinymix_path = path };
              })
              (sym (ap (λ (x : Sys). x.mic.tinymix_path) e))

  run_tinymix-Apart :
      (control val1 val2 val3 : Bytes) → Runs Apart (run_tinymix control val1 val2 val3)
  unfolding run_tinymix exec_command report_route
  run_tinymix-Apart control val1 val2 val3 = search (apart, log-Apart) depth 30

  pub discover_tinymix-Apart : Runs Apart discover_tinymix
  unfolding discover_tinymix exec_command
  discover_tinymix-Apart = search (apart, set_path) depth 20
    where
      set_path : (path : Bytes) → Runs Apart (modify (set_tinymix_path path))
      set_path path = Runs-modify _ λ s. record { rest = refl; emits = Emits-same refl }

  run_routes-Apart : (rs : List Route) → Runs Apart (run_routes rs)
  unfolding run_routes
  run_routes-Apart [] = Runs-pure _
  run_routes-Apart (r ∷ rs) =
      Runs-bind _ _ (run_tinymix-Apart r.control r.val1 r.val2 r.val3) λ _. run_routes-Apart rs

  pub apply_pre_init-Apart : Runs Apart apply_pre_init
  unfolding apply_pre_init
  apply_pre_init-Apart = run_routes-Apart pre_init_routes

  pub apply_mic_fix-Apart : Runs Apart apply_mic_fix
  unfolding apply_mic_fix
  apply_mic_fix-Apart =
      Runs-bind _ _ (run_routes-Apart mic_routes) λ _. run_routes-Apart unmute_routes

  pub show_notification-Apart : Runs Apart show_notification
  unfolding show_notification
  show_notification-Apart = search apart
