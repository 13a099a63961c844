-- ===== src/Cache/Cleaner.antt =====
-- cache/cache_cleaner.cpp: the removal of directories; the sweeps are in the child `Sweeps`. Counters of
-- files are an int, counted here without wrapping.
pub mod Sweeps
pub mod Accounts
pub mod Calls
pub mod PlainFiles
pub mod Cooldown
pub mod Termination
use fresh_core_native.Prelude.{
  ℕ, zero, suc, ◌+◌, u32, u64, Bytes, bytes, contains, join, ℤ, pos, leb_ℤ, Bool, true, false, not,
  Option, none, some, List, [], ◌∷◌, if◌then◌else◌,
}
use fresh_core_native.CacheData.{PackageState, CacheDirInfo}
use fresh_core_native.Os.{Env, Call, Stat, info, warning, text, number}
use fresh_core_native.Sys.Monad.{St, pure, gets, perform}
use fresh_core_native.Sys.Monad
use fresh_core_native.Sys.Fuel.{Prog, return, out_of_fuel, lift, ◌>>=◌, ◌>>◌}
use fresh_core_native.Logging.{log}
use fresh_core_native.Filesystem.{get_directory_children, lstat, safe_remove}
use fresh_core_native.Power.Idle.{IdleState, not_idle, evaluate_idle_state}
use fresh_core_native.Diagnostics.{start_batch, end_batch}
use fresh_core_native.StateStorage.{
  get_current_time_ms, get_package_state, update_package_state, save_state_atomic,
}

abbrev pub is_not_idle : IdleState → Bool
is_not_idle not_idle = true
is_not_idle _ = false

-- files_removed and bytes_freed of `RemoveRecursiveBatched`
pub record Batch : Type 0 where
  pub files_removed : ℕ
  pub bytes_freed : ℕ

abbrev pub empty_batch : Batch
empty_batch = record { files_removed = 0; bytes_freed = 0 }

abbrev count_file : Bool → ℕ → Batch → Batch
count_file true size b = record {
  files_removed = b.files_removed + 1;
  bytes_freed = u64 (b.bytes_freed + size);
}
count_file false size b = b

-- A clean directory's state: the time, one more cleanup, and no bytes left.
unfoldable pub cleaned_state : ℕ → PackageState → PackageState
cleaned_state now state = record state {
  last_cleanup_ms = now;
  last_size_bytes = 0;
  cleanup_count = u32 (state.cleanup_count + 1);
}

module _ ⦃env : Env⦄ where
  -- The case distinction on lstat: `none` is `return false`, else the batch goes on.
  remove_child : (Bytes → Prog Bool) → Bytes → Option Stat → Batch → Prog (Option Batch)
  remove_child inner child_path none batch = return (some batch)
  remove_child inner child_path (some st) batch =
      if st.is_dir
      then (do removed ← inner child_path; return (if removed then some batch else none))
      else (do
        removed ← lift (safe_remove child_path)
        return (some (count_file removed st.size batch)))

  -- A full batch is ended, and the next one started after a pause.
  roll_batch : Batch → Prog (Option Batch)
  roll_batch batch = do
    max_files ← lift (gets (λ s. s.config.max_files_per_batch))
    if leb_ℤ max_files (pos batch.files_removed)
        then (do
          go_on ← lift (end_batch batch.files_removed batch.bytes_freed)
          if not go_on then return none else (do
            lift (perform (Call.usleep 10000) (λ h. tt))
            lift start_batch
            return (some empty_batch)))
        else return (some batch)

  roll_if : Option Batch → Prog (Option Batch)
  unfolding roll_batch
  roll_if none = return none
  roll_if (some batch) = roll_batch batch

  -- One round of the loop.
  remove_round : (Bytes → Prog Bool) → Bytes → Batch → Prog (Option Batch)
  unfolding remove_child roll_if
  remove_round inner child_path batch = do
    idle ← lift evaluate_idle_state
    if is_not_idle idle
        then (do lift (log warning "Aborting cleanup: device is no longer idle." []); return none)
        else (do
          st ← lift (lstat child_path)
          after ← remove_child inner child_path st batch
          roll_if after)

  -- The rest of the loop, after a round that went on.
  go_on_with : (Batch → Prog (Option Batch)) → Option Batch → Prog (Option Batch)
  go_on_with rest none = return none
  go_on_with rest (some batch) = rest batch

  remove_children : (Bytes → Prog Bool) → Bytes → List Bytes → Batch → Prog (Option Batch)
  unfolding remove_round go_on_with
  remove_children inner path [] batch = return (some batch)
  remove_children inner path (child ∷ children) batch = do
    after ← remove_round inner (join path child) batch
    go_on_with (remove_children inner path children) after

  finish : Bytes → Option Batch → Prog Bool
  finish path none = return false
  finish path (some batch) = do
    lift (end_batch batch.files_removed batch.bytes_freed)
    lift (safe_remove path)
    return true

  remove_listed : (Bytes → Prog Bool) → Bytes → Option (List Bytes) → Prog Bool
  unfolding remove_children finish
  remove_listed inner path none = return false
  remove_listed inner path (some children) = do
    lift start_batch
    batch ← remove_children inner path children empty_batch
    finish path batch

  -- Fuel for the depth of the directory.
  unfoldable pub remove_recursive_batched : ℕ → Bytes → Prog Bool
  unfolding remove_listed
  remove_recursive_batched zero path = out_of_fuel
  remove_recursive_batched (suc fuel) path = do
    children ← lift (get_directory_children path)
    remove_listed (remove_recursive_batched fuel) path children

  clean_children : ℕ → CacheDirInfo → List Bytes → Prog Bool
  unfolding remove_recursive_batched
  clean_children fuel target [] = return true
  clean_children fuel target (child ∷ children) = do
    removed ← remove_recursive_batched fuel (join target.path child)
    if not removed
        then (do lift (log warning "Cleanup aborted for: %s" (text target.path ∷ [])); return false)
        else clean_children fuel target children

  unfoldable pub record_cleanup : CacheDirInfo → Prog (Unit {0})
  unfolding cleaned_state
  record_cleanup target = do
    lift (log info "Completed clean of: %s" (text target.path ∷ []))
    state ← lift (get_package_state target.pkg_name)
    now ← lift get_current_time_ms
    lift (update_package_state target.pkg_name (cleaned_state now state))
    lift save_state_atomic

  clean_listed : ℕ → CacheDirInfo → Option (List Bytes) → Prog Bool
  unfolding clean_children record_cleanup
  clean_listed fuel target none = return true
  clean_listed fuel target (some children) = do
    done ← clean_children fuel target children
    if done then (do record_cleanup target; return true) else return false

  unfoldable pub clean_directory_safely : ℕ → CacheDirInfo → Prog Bool
  unfolding clean_listed
  clean_directory_safely fuel target = do
    lift (log info "Starting safe clean of: %s" (text target.path ∷ []))
    children ← lift (get_directory_children target.path)
    clean_listed fuel target children
