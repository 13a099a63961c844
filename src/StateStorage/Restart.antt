-- ===== src/StateStorage/Restart.antt =====
-- A save, and the load of what it wrote by the next process.
use mathlib.Core.Quot
use fresh_core_native.Prelude.{
  ℕ, ◌<◌, ◌≡◌, refl, sym, ◌∙◌, ap, Bytes, bytes_eq, bytes_eq_refl, Bool, true, false, Option, some,
  List, [], ◌∷◌, ◌++◌, if◌then◌else◌, length, All, arith,
}
use fresh_core_native.CacheData.{PackageState, States, find}
use fresh_core_native.Diagnostics.{milliseconds}
use fresh_core_native.Os.{Env, Call, History}
use fresh_core_native.Os
use fresh_core_native.Sys.{Sys}
use fresh_core_native.Sys.Monad.{pure, ◌>>=◌}
use fresh_core_native.Sys.Monad
use fresh_core_native.Logging.Calls.{log-Logged}
use fresh_core_native.StateImage.{loaded, load_file, assign_all}
use fresh_core_native.StateImage.RoundTrip.{FitsWords, file_bytes, load_file-file_bytes}
use fresh_core_native.StateStorage.{
  LoadEnd, returned, aborted, state_file, state_file_tmp, values, apply_load, load_content,
  initialize_state_storage, write_state_file, save_state_atomic, get_current_time_ms,
}
use fresh_core_native.StateStorage.Restore.{WellKeyed, find-assign_all, or_else-none}
use fresh_core_native.StateStorage.Abstract.{table_of}
use fresh_core_native.StateStorage.Walks.{
  Walks, walk-WellKeyed, walk-SameFinds, walk-All, walk-length,
}

-- What a file holds after the calls: fopen empties it, and fwrite appends to it.
unfoldable pub written_to : Bytes → History → Bytes
unfolding bytes_eq
written_to path [] = []
written_to path (Os.fopen p ∷ h) =
    let before = written_to path h in if bytes_eq p path then [] else before
written_to path (Os.fwrite p content ∷ h) =
    let before = written_to path h in if bytes_eq p path then before ++ content else before
written_to path (_ ∷ h) = written_to path h

-- A table that can be saved whole.
pub record IsSavable (m : States) : Type 0 where
  pub keyed : WellKeyed m
  pub few : length (values m) < 4294967296
  pub fits : All FitsWords (values m)

module _ ⦃env : Env⦄ where
  saved_time : Sys → ℕ
  saved_time s = milliseconds (env.realtime s.calls)

  saved_time_fits : (s : Sys) → saved_time s < 18446744073709551616
  unfolding saved_time
  saved_time_fits s = omega arith

  -- What the file holds once it was opened, written and renamed.
  save_state_atomic-writes :
      (s : Sys)
      → ((h : History) → env.fopen h state_file_tmp ≡ true)
      → ((h : History) → env.rename h state_file_tmp state_file ≡ true)
      → written_to state_file_tmp (save_state_atomic s).1.calls
        ≡ file_bytes (saved_time s) env.padding (values (env.walk s.states))
  unfolding save_state_atomic write_state_file get_current_time_ms saved_time written_to Monad.◌>>=◌
      Monad.perform Monad.gets Monad.pure
  save_state_atomic-writes s opens renames =
      rw (opens _, renames _) (rw (bytes_eq_refl state_file_tmp) refl)

  allocated_loaded :
      (allocated : Bool) (content : Bytes) (sts : List PackageState) (s : Sys)
      → load_file content ≡ loaded sts
      → let load =
          if allocated
          then (apply_load (load_file content) >>= λ _. pure returned)
          else pure aborted in
        (load s).0 ≡ returned → (load s).1.states ≡ assign_all sts s.states
  unfolding apply_load Monad.◌>>=◌ Monad.modify Monad.pure
  allocated_loaded true content sts s load returns =
      rw load (ap (λ (x : Sys). x.states) ((log-Logged _ _ _).at _).rest)
  allocated_loaded false content sts s load returns = ground (arith, returns)

  -- What a load that succeeds leaves in the table.
  initialize_state_storage-loaded :
      (content : Bytes) (sts : List PackageState) (t : Sys)
      → env.file t.calls state_file ≡ some content
      → load_file content ≡ loaded sts
      → (initialize_state_storage t).0 ≡ returned
      → (initialize_state_storage t).1.states ≡ assign_all sts t.states
  unfolding initialize_state_storage load_content Monad.◌>>=◌ Monad.perform Monad.gets
  initialize_state_storage-loaded content sts t file load returns =
      let u : Sys = record t { calls = Call.read_file state_file ∷ t.calls } in
      let read : load_content (env.file t.calls state_file) u ≡ load_content (some content) u =
        ap (λ (o : Option Bytes). load_content o u) file in
      ap (λ (r : LoadEnd × Sys). r.1.states) read
      ∙ allocated_loaded _ content sts u load (sym (ap (λ (r : LoadEnd × Sys). r.0) read) ∙ returns)

-- Where the temporary file can be opened and renamed, memory for the saved states can be allocated, and the map is walked entry by entry, a process
-- that begins with the empty table and finds in the file of the states what a save wrote there has,
-- after InitializeStateStorage, the table that was saved, seen as what each hash finds; in the saved
-- table each key stands once and is the hash of its state, and there are fewer than 2^32 states, whose
-- numbers are within their types.
pub restart_restores :
    (env later : Env) (s t : Sys)
    → Walks env.walk
    → ((h : History) → env.fopen h state_file_tmp ≡ true)
    → ((h : History) → env.rename h state_file_tmp state_file ≡ true)
    → IsSavable s.states
    → t.states ≡ []
    → later.file t.calls state_file
      ≡ some (written_to state_file_tmp (save_state_atomic ⦃env = env⦄ s).1.calls)
    → (initialize_state_storage ⦃env = later⦄ t).0 ≡ returned
    → table_of (initialize_state_storage ⦃env = later⦄ t).1.states ≡ table_of s.states
unfolding find
restart_restores env later s t walks opens renames savable empty file returns =
    let w = env.walk s.states in
    let content = file_bytes (saved_time ⦃env = env⦄ s) env.padding (values w) in
    let written = save_state_atomic-writes ⦃env = env⦄ s opens renames in
    let few : length (values w) < 4294967296 =
      omega (arith, savable.few, walk-length env.walk walks s.states) in
    let load =
      load_file-file_bytes (saved_time ⦃env = env⦄ s) env.padding (values w) few
        (saved_time_fits ⦃env = env⦄ s) (walk-All env.walk walks s.states FitsWords savable.fits) in
    let states : (initialize_state_storage ⦃env = later⦄ t).1.states
        ≡ assign_all (values w) t.states =
      initialize_state_storage-loaded ⦃env = later⦄ content (values w) t (file ∙ ap some written)
        load returns in
    ap table_of (states ∙ ap (assign_all (values w)) empty)
    ∙ Quot.sound (λ k.
      find-assign_all k w [] (walk-WellKeyed env.walk walks s.states savable.keyed)
      ∙ (or_else-none (find k w) ∙ sym (walk-SameFinds env.walk walks s.states savable.keyed k)))
