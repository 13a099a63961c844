-- ===== src/Tweaks/Boot/Writes.antt =====
-- What the boot tweaks write: the three network settings and the read-ahead of block devices.
use fresh_core_native.Prelude.{
  refl, String, Bytes, bytes, join, Bool, true, false, List, [], ◌∷◌, All,
}
use fresh_core_native.Os.{Env, Call, LogLevel, Arg}
use fresh_core_native.Sys.{Sys}
use fresh_core_native.Sys.Monad.{Runs, Emits, Emits-IsPreorder, Runs-bind, Runs-pure}
use fresh_core_native.Logging.{log}
use fresh_core_native.Logging.Report.{
  Obeys, Obeys-IsPreorder, Obeys-perform, Obeys-weaken, obeys, IsLineCall, OnLog, log-Lines,
}
use fresh_core_native.Tweaks.Boot.{
  Counts, tcp_settings, block_dir, read_ahead_path, read_ahead_kb, write_settings, report_locked,
  boost_file, boost_entry, boost_entries, boost_blocks, apply_boot_tweaks,
}

-- A file with what the tweaks write to it.
pub data IsTweak : Bytes → Bytes → Type 0 where
  window_scaling : IsTweak (bytes "/proc/sys/net/ipv4/tcp_window_scaling") (bytes "1")
  receive_buffer : IsTweak (bytes "/proc/sys/net/ipv4/tcp_rmem") (bytes "4096 87380 16777216")
  send_buffer : IsTweak (bytes "/proc/sys/net/ipv4/tcp_wmem") (bytes "4096 16384 16777216")
  read_ahead : (device : Bytes) → IsTweak (read_ahead_path (join block_dir device)) read_ahead_kb

-- What the tweaks call where the log is at `path`: files are written as tweaks only, one command is
-- run, and the rest looks at files or writes to the log.
pub data MayTweak (path : Bytes) : Call → Type 0 where
  logs : {c : Call} → IsLineCall path c → MayTweak path c
  writes : {file val : Bytes} → IsTweak file val → MayTweak path (Call.write_file file val)
  finds : (file : Bytes) → MayTweak path (Call.exists file)
  asks : (file : Bytes) → MayTweak path (Call.is_directory file)
  lists : MayTweak path (Call.directory_iterator (bytes "/sys/block"))
  compiles : MayTweak path (Call.system (bytes "( cmd package bg-dexopt-job >/dev/null 2>&1; ) &"))

abbrev TweakOf : Bytes × Bytes → Type 0
TweakOf (path, val) = IsTweak path val

module _ ⦃env : Env⦄ (path : Bytes) where
  abbrev Steps : Sys → Sys → Type 0
  Steps = Obeys (OnLog path) (MayTweak path)

  log-Steps :
      (level : LogLevel) (format : String) (args : List Arg) → Runs Steps (log level format args)
  log-Steps level format args = Obeys-weaken (λ c. logs) (log-Lines path level format args)

  write_settings-Tweaks :
      (settings : List (Bytes × Bytes)) (c : Counts)
      → All TweakOf settings
      → Runs Steps (write_settings settings c)
  unfolding write_settings
  write_settings-Tweaks [] c h = Runs-pure _
  write_settings-Tweaks ((path, val) ∷ settings) c h =
      Runs-bind _ _ (Obeys-perform _ _ (writes h.0)) λ written. write_settings-Tweaks settings _ h.1

  report_locked-Tweaks : (path : Bytes) (written : Bool) → Runs Steps (report_locked path written)
  unfolding report_locked
  report_locked-Tweaks path true = Runs-pure _
  report_locked-Tweaks path false = log-Steps _ _ _

  boost_entry-Tweaks :
      (device : Bytes) (c : Counts) → Runs Steps (boost_entry (join block_dir device) c)
  unfolding boost_entry boost_file
  boost_entry-Tweaks device c =
      search (obeys, asks, finds, writes (IsTweak.read_ahead device), report_locked-Tweaks) depth 30

  boost_entries-Tweaks : (names : List Bytes) (c : Counts) → Runs Steps (boost_entries names c)
  unfolding boost_entries
  boost_entries-Tweaks [] c = Runs-pure _
  boost_entries-Tweaks (name ∷ names) c =
      Runs-bind _ _ (boost_entry-Tweaks name c) λ c'. boost_entries-Tweaks names c'

  boost_blocks-Tweaks : (c : Counts) → Runs Steps (boost_blocks c)
  unfolding boost_blocks
  boost_blocks-Tweaks c = search (obeys, finds, lists, boost_entries-Tweaks) depth 30

  apply_boot_tweaks-Steps : Runs Steps apply_boot_tweaks
  unfolding apply_boot_tweaks
  apply_boot_tweaks-Steps =
      search
        (
          obeys,
          MayTweak.compiles,
          log-Steps,
          write_settings-Tweaks tcp_settings _
              (IsTweak.window_scaling, (IsTweak.receive_buffer, (IsTweak.send_buffer, tt))),
          boost_blocks-Tweaks,
        )
        depth 30

module _ ⦃env : Env⦄ where
  -- On every device and from every state, the boot tweaks write only the three network settings, with
  -- their values, and 2048 to the read-ahead of entries of /sys/block, run only the command for dexopt,
  -- look whether files exist, are directories, and what /sys/block lists, and else make only the calls
  -- of the logger on its file: nothing is removed and no other command run.
  pub apply_boot_tweaks_writes :
      (s : Sys) → Emits (MayTweak s.logger.path) s (apply_boot_tweaks s).1
  apply_boot_tweaks_writes s = (((apply_boot_tweaks-Steps s.logger.path).at s).at (λ _. refl)).0
