-- ===== src/Logging.antt =====
-- logging/logger.cpp. The file is named by its path.
pub mod Calls
pub mod Emissions
pub mod Report
use fresh_core_native.Prelude.{
  ℕ, Bytes, bytes, String, Bool, true, false, not, ◌&&◌, Option, none, some, List, ◌++◌, leb, ltb,
  if◌then◌else◌, ◌+◌,
}
use fresh_core_native.Os.{Env, LogLevel, debug, info, warning, error, Arg, Stat}
use fresh_core_native.Os
use fresh_core_native.Os.{Call}
use fresh_core_native.Config.{Configuration}
use fresh_core_native.Sys.{Sys, Logger}
use fresh_core_native.Sys.Monad.{St, pure, gets, modify, perform, ◌>>=◌, ◌>>◌}

unfoldable pub level_to_string : LogLevel → Bytes
unfolding bytes
level_to_string debug = bytes "DEBUG"
level_to_string info = bytes "INFO "
level_to_string warning = bytes "WARN "
level_to_string error = bytes "ERROR"

abbrev pub is_debug : LogLevel → Bool
is_debug debug = true
is_debug _ = false

abbrev pub old_path : Bytes → Bytes
old_path path = path ++ bytes ".old"

abbrev pub set_open : Bool → Sys → Sys
set_open b s = record s { logger = record s.logger { is_open = b } }

module _ ⦃env : Env⦄ where
  -- The log is deleted when it was last written more than 259200 seconds ago.
  delete_if_old : Bytes → Option Stat → St (Unit {0})
  delete_if_old path none = pure tt
  delete_if_old path (some st) = do
    now ← perform Call.time env.time
    if ltb (st.mtime + 259200) now
        then (do
          perform (Call.unlink path) (λ h. env.unlink h path)
          perform (Call.unlink (old_path path)) (λ h. env.unlink h (old_path path))
          pure tt)
        else pure tt

  unfoldable pub open_log : Bytes → ℕ → St Bool
  unfolding delete_if_old
  open_log path max_size = do
    modify (λ s. record s { logger = record s.logger { path = path; max_size = max_size } })
    st ← perform (Call.stat path) (λ h. env.stat h path)
    delete_if_old path st
    opened ← perform (Call.fopen path) (λ h. env.fopen h path)
    modify (set_open opened)
    pure opened

  unfoldable pub initialize : Bytes → ℕ → St Bool
  unfolding open_log
  initialize path max_size = do
    is_open ← gets (λ s. s.logger.is_open)
    if is_open then pure true else open_log path max_size

  unfoldable pub shutdown : St (Unit {0})
  shutdown = do
    logger ← gets (λ s. s.logger)
    if logger.is_open
        then (do perform (Call.fclose logger.path) (λ h. tt); modify (set_open false))
        else pure tt

  -- The rotation of `Log`; the result says whether the file is open.
  rotate : Logger → Option ℕ → St Bool
  rotate logger none = pure true
  rotate logger (some size) =
      if ltb logger.max_size size
      then (do
        perform (Call.fclose logger.path) (λ h. tt)
        perform (Call.rename logger.path (old_path logger.path))
            (λ h. env.rename h logger.path (old_path logger.path))
        opened ← perform (Call.fopen logger.path) (λ h. env.fopen h logger.path)
        modify (set_open opened)
        pure opened)
      else pure true

  write_line : Logger → LogLevel → String → List Arg → St (Unit {0})
  write_line logger level format args = do
    now ← perform Call.time env.time
    perform (Call.fprintf now (level_to_string level) format args) (λ h. tt)
    perform (Call.fflush logger.path) (λ h. tt)

  write : LogLevel → String → List Arg → St (Unit {0})
  unfolding rotate write_line
  write level format args = do
    logger ← gets (λ s. s.logger)
    size ← perform (Call.fstat logger.path) (λ h. env.fstat h logger.path)
    opened ← rotate logger size
    if opened then write_line logger level format args else pure tt

  unfoldable pub log : LogLevel → String → List Arg → St (Unit {0})
  unfolding write
  log level format args = do
    s ← gets (λ s. s)
    if is_debug level && not s.config.logging_debug
        then pure tt
        else if s.logger.is_open
        then write level format args
        else pure tt
