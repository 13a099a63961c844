-- ===== src/Logging/Emissions.antt =====
-- The calls that writing a log line makes.
use fresh_core_native.Prelude.{ℕ, ◌≡◌, Bytes, String, List, Option, none, some, arith}
use fresh_core_native.Os
use fresh_core_native.Os.{Env, Call, LogLevel, Arg, Stat}
use fresh_core_native.Sys.{Sys, Logger}
use fresh_core_native.Sys.Monad.{Runs, Emits, Emits-IsPreorder, Emits-weaken, emits}
use fresh_core_native.Sys.Monad
use fresh_core_native.Logging.{log, rotate, shutdown, delete_if_old, open_log, old_path, initialize}

pub data IsLogCall : Call → Type 0 where
  stat_log : (path : Bytes) → IsLogCall (Call.fstat path)
  close_log : (path : Bytes) → IsLogCall (Call.fclose path)
  rename_log : (path old : Bytes) → IsLogCall (Call.rename path old)
  reopen_log : (path : Bytes) → IsLogCall (Call.fopen path)
  log_time : IsLogCall Call.time
  log_line :
      (now : ℕ) (level : Bytes) (format : String) (args : List Arg)
      → IsLogCall (Call.fprintf now level format args)
  flush_log : (path : Bytes) → IsLogCall (Call.fflush path)

-- Calls that run no command, write no file by a stream and remove nothing.
abbrev pub IsHarmless : Call → Type 0
IsHarmless (Os.popen command) = ⊥
IsHarmless (Os.system command) = ⊥
IsHarmless (Os.write_file path val) = ⊥
IsHarmless (Os.rmdir path) = ⊥
IsHarmless (Os.unlink path) = ⊥
IsHarmless _ = Unit

pub IsLogCall-IsHarmless : (c : Call) → IsLogCall c → IsHarmless c
IsLogCall-IsHarmless _ (stat_log path) = tt
IsLogCall-IsHarmless _ (close_log path) = tt
IsLogCall-IsHarmless _ (rename_log path old) = tt
IsLogCall-IsHarmless _ (reopen_log path) = tt
IsLogCall-IsHarmless _ log_time = tt
IsLogCall-IsHarmless _ (log_line now level format args) = tt
IsLogCall-IsHarmless _ (flush_log path) = tt

ruleset log_calls =
    (emits, stat_log, close_log, rename_log, reopen_log, log_time, log_line, flush_log)

module _ ⦃env : Env⦄ where
  rotate-Emits : (logger : Logger) (size : Option ℕ) → Runs (Emits IsLogCall) (rotate logger size)
  unfolding rotate
  rotate-Emits logger none = search emits
  rotate-Emits logger (some size) = search log_calls depth 20

  log_lines :
      (level : LogLevel) (format : String) (args : List Arg)
      → Runs (Emits IsLogCall) (log level format args)
  unfolding log
  log_lines level format args = search (log_calls, rotate-Emits) depth 30

  -- For any predicate that the calls of a log line satisfy.
  pub log-Emits :
      {Q : Call → Type 0}
      → ((c : Call) → IsLogCall c → Q c)
      → (level : LogLevel) (format : String) (args : List Arg)
      → Runs (Emits Q) (log level format args)
  log-Emits h level format args = record {
    at = λ s. Emits-weaken h ((log_lines level format args).at s);
  }

  -- For any predicate that every harmless call satisfies.
  pub log_harmless :
      {Q : Call → Type 0}
      → ((c : Call) → IsHarmless c → Q c)
      → (level : LogLevel) (format : String) (args : List Arg)
      → Runs (Emits Q) (log level format args)
  log_harmless h = log-Emits (λ c l. h c (IsLogCall-IsHarmless c l))

  pub shutdown-Emits :
      {Q : Call → Type 0} → ((c : Call) → IsLogCall c → Q c) → Runs (Emits Q) shutdown
  unfolding shutdown
  shutdown-Emits h =
      search (emits, λ (path : Bytes). h (Call.fclose path) (close_log path)) depth 20

-- The calls that opening the log makes.
pub data IsOpenCall (path : Bytes) : Call → Type 0 where
  stat : IsOpenCall path (Call.stat path)
  time : IsOpenCall path Call.time
  delete : IsOpenCall path (Call.unlink path)
  delete_old : IsOpenCall path (Call.unlink (old_path path))
  open_file : IsOpenCall path (Call.fopen path)

ruleset open_calls = (emits, stat, time, delete, delete_old, open_file)

module _ ⦃env : Env⦄ where
  delete_if_old-Emits :
      (path : Bytes) (st : Option Stat) → Runs (Emits (IsOpenCall path)) (delete_if_old path st)
  unfolding delete_if_old
  delete_if_old-Emits path none = search emits
  delete_if_old-Emits path (some st) = search open_calls depth 20

  initialize_calls :
      (path : Bytes) (max_size : ℕ) → Runs (Emits (IsOpenCall path)) (initialize path max_size)
  unfolding initialize open_log
  initialize_calls path max_size = search (open_calls, delete_if_old-Emits) depth 30

  pub initialize-Emits :
      {Q : Call → Type 0} (path : Bytes)
      → ((c : Call) → IsOpenCall path c → Q c)
      → (max_size : ℕ) → Runs (Emits Q) (initialize path max_size)
  initialize-Emits path h max_size = record {
    at = λ s. Emits-weaken h ((initialize_calls path max_size).at s);
  }

  pub initialize-config :
      (path : Bytes) (max_size : ℕ) (s : Sys) → (initialize path max_size s).1.config ≡ s.config
  unfolding initialize open_log delete_if_old Monad.◌>>=◌
  initialize-config path max_size s = ground (arith)
