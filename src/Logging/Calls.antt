-- ===== src/Logging/Calls.antt =====
-- Writing a log line changes nothing but the log, and removes no file.
use fresh_core_native.Prelude.{ap, Bytes, String, List, Option, none, some}
use fresh_core_native.Os.{Env, LogLevel, Arg}
use fresh_core_native.Sys.Monad.{Runs}
use fresh_core_native.Sys.{Sys, Logger}
use fresh_core_native.Sys.Still.{Sensed, Still}
use fresh_core_native.Sys.Frame.{Steady, Runs-Steady, Frame, Frame-IsPreorder, frames}
use fresh_core_native.Sys.Logged.{Logged, Logged-IsPreorder, logged}
use fresh_core_native.Logging.{log, rotate}

module _ ⦃env : Env⦄ {P : Bytes → Type 0} where
  rotate-Frame : (logger : Logger) (size : Option _) → Runs (Frame P) (rotate logger size)
  unfolding rotate
  rotate-Frame logger none = search frames
  rotate-Frame logger (some size) = search (frames, tt) depth 12

  pub log-Frame :
      (level : LogLevel) (format : String) (args : List Arg)
      → Runs (Frame P) (log level format args)
  unfolding log
  log-Frame level format args = search (frames, rotate-Frame) depth 20

  pub log-Steady :
      (level : LogLevel) (format : String) (args : List Arg)
      → Runs (Steady P) (log level format args)
  log-Steady level format args = Runs-Steady (log-Frame level format args)

module _ ⦃env : Env⦄ where
  rotate-Logged : (logger : Logger) (size : Option _) → Runs Logged (rotate logger size)
  unfolding rotate
  rotate-Logged logger none = search logged
  rotate-Logged logger (some size) = search logged depth 20

  pub log-Logged :
      (level : LogLevel) (format : String) (args : List Arg) → Runs Logged (log level format args)
  unfolding log
  log-Logged level format args = search (logged, rotate-Logged) depth 30

module _ ⦃env : Env⦄ {P : Bytes → Type 0} where
  pub log-Still :
      (level : LogLevel) (format : String) (args : List Arg)
      → Runs (Still P) (log level format args)
  log-Still level format args = record {
    at = λ s. record {
      frame = (log-Frame level format args).at s;
      files = ap (λ (x : Sys). x.totals.files_processed) ((log-Logged level format args).at s).rest;
    };
  }

  pub log-Sensed :
      (level : LogLevel) (format : String) (args : List Arg)
      → Runs (Sensed P) (log level format args)
  log-Sensed level format args = record {
    at = λ s. record {
      still = (log-Still level format args).at s;
      time = ap (λ (x : Sys). x.screen_off_time) ((log-Logged level format args).at s).rest;
    };
  }
