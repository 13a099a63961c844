-- ===== src/StateStorage.antt =====
-- cache/state_storage.cpp: the table of package states and its file.
pub mod Calls
pub mod Table
pub mod Restore
pub mod Abstract
pub mod Walks
pub mod Restart
pub mod UnitTest
use fresh_core_native.Prelude.{
  ℕ, ◌*◌, ◌||◌, ◌==◌, ltb, Bytes, bytes, u32, Bool, true, false, not, Option, none, some, List, [],
  ◌∷◌, ◌++◌, length, if◌then◌else◌,
}
use fresh_core_native.CacheData.{PackageState, States, find, assign}
use fresh_core_native.Os.{Env, Call, History, debug, info, warning, error, text, number}
use fresh_core_native.Sys.{Sys}
use fresh_core_native.Sys.Monad.{St, pure, gets, modify, perform, ◌>>=◌, ◌>>◌}
use fresh_core_native.Logging.{log}
use fresh_core_native.Diagnostics.{milliseconds}
use fresh_core_native.StateImage.{
  StateHeader, state_magic, state_version, read_header, LoadResult, no_header, mismatch, truncated,
  corrupt, loaded, hash_package_name, save_header, header_bytes, states_bytes, load_file,
  assign_all,
}

abbrev pub state_file : Bytes
state_file = bytes "/data/adb/freshcore/state.bin"

abbrev pub state_file_tmp : Bytes
state_file_tmp = bytes "/data/adb/freshcore/state.tmp"

abbrev pub set_states : States → Sys → Sys
set_states m s = record s { states = m }

-- PackageState default_state{}; default_state.hash = hash;
abbrev pub default_state : ℕ → PackageState
default_state hash = record {
  hash = hash;
  last_scan_ms = 0;
  last_cleanup_ms = 0;
  last_size_bytes = 0;
  cleanup_count = 0;
  growth_rate_bytes_per_day = 0;
}

abbrev pub or_default : ℕ → Option PackageState → PackageState
or_default hash none = default_state hash
or_default hash (some st) = st

-- What `GetPackageState` finds in a table.
unfoldable pub state_of : Bytes → States → PackageState
unfolding find hash_package_name
state_of pkg_name m = or_default (hash_package_name pkg_name) (find (hash_package_name pkg_name) m)

abbrev pub values : List (ℕ × PackageState) → List PackageState
values [] = []
values ((k, st) ∷ m) = st ∷ values m

-- `aborted`: the process has ended in the allocation of the vector.
pub data LoadEnd : Type 0 where
  returned aborted : LoadEnd

-- How many bytes the vector takes, where the header is read and is the one expected.
unfoldable pub allocation : Bytes → Option ℕ
allocation s =
    if ltb (length s) 24
      || not ((read_header s).magic == state_magic)
      || not ((read_header s).version == state_version)
    then none
    else some ((read_header s).entry_count * 40)

module _ ⦃env : Env⦄ where
  unfoldable pub get_current_time_ms : St ℕ
  get_current_time_ms = perform Call.clock_realtime (λ h. milliseconds (env.realtime h))

  unfoldable pub get_package_state : Bytes → St PackageState
  unfolding state_of
  get_package_state pkg_name = gets (λ s. state_of pkg_name s.states)

  unfoldable pub update_package_state : Bytes → PackageState → St (Unit {0})
  unfolding assign hash_package_name
  update_package_state pkg_name state =
      modify (λ s. set_states (assign (hash_package_name pkg_name) state s.states) s)

  -- The allocation of `n` bytes, if any.
  unfoldable pub can_hold : Option ℕ → History → Bool
  can_hold none h = true
  can_hold (some n) h = env.allocates h n

  apply_load : LoadResult → St (Unit {0})
  unfolding assign_all
  apply_load no_header = pure tt
  apply_load mismatch = log warning "State file magic/version mismatch, ignoring." []
  apply_load truncated = log warning "State file truncated." []
  apply_load corrupt = log error "State file checksum mismatch! Corruption detected." []
  apply_load (loaded sts) = do
    modify (λ s. set_states (assign_all sts s.states) s)
    log info "Loaded %u package states." (number (length sts) ∷ [])

  -- The vector for as many states as the header says, before the file is read on.
  load_content : Option Bytes → St LoadEnd
  unfolding apply_load load_file
  load_content none = do log debug "No existing state file found." []; pure returned
  load_content (some content) = do
    allocated ← gets (λ s. can_hold (allocation content) s.calls)
    if allocated then (do apply_load (load_file content); pure returned) else pure aborted

  unfoldable pub initialize_state_storage : St LoadEnd
  unfolding load_content
  initialize_state_storage = do
    file ← perform (Call.read_file state_file) (λ h. env.file h state_file)
    load_content file

  -- The two fwrite calls and what follows them, once the temporary file is open.
  write_state_file : ℕ → List PackageState → St (Unit {0})
  unfolding save_header header_bytes states_bytes
  write_state_file timestamp sts = do
    perform (Call.fwrite state_file_tmp (header_bytes (save_header timestamp env.padding sts)))
        (λ h. tt)
    perform (Call.fwrite state_file_tmp (states_bytes env.padding 0 sts)) (λ h. tt)
    perform (Call.fflush state_file_tmp) (λ h. tt)
    perform (Call.fsync state_file_tmp) (λ h. tt)
    perform (Call.fclose state_file_tmp) (λ h. tt)
    renamed ←
        perform (Call.rename state_file_tmp state_file)
          (λ h. env.rename h state_file_tmp state_file)
    if not renamed then log error "Failed to rename temporary state file." [] else pure tt

  unfoldable pub save_state_atomic : St (Unit {0})
  unfolding write_state_file get_current_time_ms
  save_state_atomic = do
    sts ← gets (λ s. values (env.walk s.states))
    timestamp ← get_current_time_ms
    opened ← perform (Call.fopen state_file_tmp) (λ h. env.fopen h state_file_tmp)
    if opened
        then write_state_file timestamp sts
        else log error "Failed to open %s for writing." (text state_file_tmp ∷ [])
