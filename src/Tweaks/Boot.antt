-- ===== src/Tweaks/Boot.antt =====
-- `ApplyBootTweaks` of system/system_tweaks.cpp. Its two counters are ints, counted without wrapping.
pub mod Writes
pub mod Tally
use fresh_core_native.Prelude.{
  ℕ, ◌+◌, Bytes, bytes, join, Bool, true, false, List, [], ◌∷◌, ◌++◌, if◌then◌else◌,
}
use fresh_core_native.Os.{Env, Call, info, warning, text, number}
use fresh_core_native.Sys.Monad.{St, pure, perform, ◌>>=◌, ◌>>◌}
use fresh_core_native.Logging.{log}

-- success_count and fail_count
pub record Counts : Type 0 where
  pub success : ℕ
  pub fail : ℕ

abbrev count : Bool → Counts → Counts
count true c = record c { success = c.success + 1 }
count false c = record c { fail = c.fail + 1 }

-- The three writes to /proc/sys/net/ipv4.
abbrev pub tcp_settings : List (Bytes × Bytes)
tcp_settings =
    (bytes "/proc/sys/net/ipv4/tcp_window_scaling", bytes "1")
    ∷ (bytes "/proc/sys/net/ipv4/tcp_rmem", bytes "4096 87380 16777216")
    ∷ (bytes "/proc/sys/net/ipv4/tcp_wmem", bytes "4096 16384 16777216")
    ∷ []

abbrev pub block_dir : Bytes
block_dir = bytes "/sys/block"

abbrev pub read_ahead_path : Bytes → Bytes
read_ahead_path entry = entry ++ bytes "/queue/read_ahead_kb"

abbrev pub read_ahead_kb : Bytes
read_ahead_kb = bytes "2048"

abbrev pub dexopt_command : Bytes
dexopt_command = bytes "( cmd package bg-dexopt-job >/dev/null 2>&1; ) &"

module _ ⦃env : Env⦄ where
  unfoldable pub write_to_file : Bytes → Bytes → St Bool
  write_to_file path val = perform (Call.write_file path val) (λ h. env.writable h path)

  write_settings : List (Bytes × Bytes) → Counts → St Counts
  unfolding write_to_file
  write_settings [] c = pure c
  write_settings ((path, val) ∷ settings) c = do
    written ← write_to_file path val
    write_settings settings (count written c)

  report_locked : Bytes → Bool → St (Unit {0})
  report_locked path true = pure tt
  report_locked path false =
      log warning "Failed to write to %s (Path locked by kernel)" (text path ∷ [])

  -- An entry's file, where it exists.
  boost_file : Bytes → Counts → St Counts
  unfolding write_to_file report_locked
  boost_file path c = do
    there ← perform (Call.exists path) (λ h. env.exists h path)
    if there
        then (do
          written ← write_to_file path read_ahead_kb
          report_locked path written
          pure (count written c))
        else pure c

  -- The body of the loop over /sys/block.
  boost_entry : Bytes → Counts → St Counts
  unfolding boost_file
  boost_entry entry c = do
    dir ← perform (Call.is_directory entry) (λ h. env.is_directory h entry)
    if dir then boost_file (read_ahead_path entry) c else pure c

  boost_entries : List Bytes → Counts → St Counts
  unfolding boost_entry
  boost_entries [] c = pure c
  boost_entries (name ∷ names) c = do
    c' ← boost_entry (join block_dir name) c
    boost_entries names c'

  boost_blocks : Counts → St Counts
  unfolding boost_entries
  boost_blocks c = do
    there ← perform (Call.exists block_dir) (λ h. env.exists h block_dir)
    if there
        then (do
          names ← perform (Call.directory_iterator block_dir) (λ h. env.listing h block_dir)
          boost_entries names c)
        else pure c

  unfoldable pub apply_boot_tweaks : St (Unit {0})
  unfolding write_settings boost_blocks
  apply_boot_tweaks = do
    log info "Applying Boot-Time System Tweaks..." []
    tcp ← write_settings tcp_settings (record { success = 0; fail = 0 })
    counts ← boost_blocks tcp
    perform (Call.system dexopt_command) (λ h. tt)
    log info "Boot-Time Tweaks Finished: %d Applied Successfully, %d Failed (Locked/Missing)"
        (number counts.success ∷ number counts.fail ∷ [])
