-- ===== src/StateStorage/UnitTest.antt =====
-- tests/test_state_storage.cpp.
use fresh_core_native.Prelude.{
  ℕ, ◌≡◌, refl, sym, ◌∙◌, ap, subst, Bytes, bytes, Bool, true, false, not, ◌==◌, ==_iff, Option,
  none, some, List, [], ◌∷◌, if◌then◌else◌, arith,
}
use fresh_core_native.CacheData.{PackageState, States, find, assign}
use fresh_core_native.Os.{Env, Call}
use fresh_core_native.Sys.{Sys}
use fresh_core_native.Sys.Monad.{St, pure, Runs, ◌>>=◌, ◌>>◌}
use fresh_core_native.Sys.Monad
use fresh_core_native.Sys.Logged.{Logged, Logged-IsPreorder, logged}
use fresh_core_native.Logging.Calls.{log-Logged}
use fresh_core_native.StateImage.{
  LoadResult, no_header, mismatch, truncated, corrupt, loaded, hash_package_name, load_file,
  assign_all,
}
use fresh_core_native.StateStorage.{
  LoadEnd, returned, aborted, allocation, can_hold, state_file, get_current_time_ms, state_of,
  or_default, get_package_state, update_package_state, apply_load, load_content,
  initialize_state_storage, write_state_file, save_state_atomic,
}
use fresh_core_native.StateStorage.Table.{find-assign}
use fresh_core_native.StateStorage.Restore.{WellKeyed, assign-WellKeyed, or_default-hash}

-- An assertion that fails ends the process; `ended`: so did the allocation in the load.
pub data TestEnd : Type 0 where
  passed failed ended : TestEnd

abbrev chrome : Bytes
chrome = bytes "com.android.chrome"

abbrev youtube : Bytes
youtube = bytes "com.google.android.youtube"

abbrev changed : PackageState → PackageState
changed st = record st { last_cleanup_ms = 123456789; cleanup_count = 1 }

module _ ⦃env : Env⦄ where
  -- What follows the assertion on the hash of the state.
  write_and_read : PackageState → St TestEnd
  write_and_read st1 = do
    update_package_state chrome (changed st1)
    save_state_atomic
    st2 ← get_package_state chrome
    if st2.last_cleanup_ms == 123456789 then pure passed else pure failed

  -- What follows the load.
  test_state : LoadEnd → St TestEnd
  unfolding write_and_read
  test_state aborted = pure ended
  test_state returned = do
    st1 ← get_package_state chrome
    if st1.hash == hash_package_name chrome then write_and_read st1 else pure failed

  unfoldable pub test_state_storage : St TestEnd
  unfolding test_state
  test_state_storage =
      if not (hash_package_name chrome == hash_package_name youtube)
      then (do load ← initialize_state_storage; test_state load)
      else pure failed

  save_state_atomic-Logged : Runs Logged save_state_atomic
  unfolding save_state_atomic write_state_file get_current_time_ms
  save_state_atomic-Logged = search (logged, log-Logged) depth 40

  assign_all-WellKeyed :
      (sts : List PackageState) (m : States) → WellKeyed m → WellKeyed (assign_all sts m)
  unfolding assign_all
  assign_all-WellKeyed [] m keyed = keyed
  assign_all-WellKeyed (st ∷ sts) m keyed =
      assign_all-WellKeyed sts (assign st.hash st m) (assign-WellKeyed st.hash st m refl keyed)

  logged_states : {s t : Sys} → Logged s t → t.states ≡ s.states
  logged_states h = ap (λ (x : Sys). x.states) h.rest

  apply_load-WellKeyed :
      (r : LoadResult) (s : Sys) → WellKeyed s.states → WellKeyed (apply_load r s).1.states
  unfolding apply_load pure ◌>>=◌ Monad.modify
  apply_load-WellKeyed no_header s keyed = keyed
  apply_load-WellKeyed mismatch s keyed =
      subst WellKeyed (sym (logged_states ((log-Logged _ _ _).at s))) keyed
  apply_load-WellKeyed truncated s keyed =
      subst WellKeyed (sym (logged_states ((log-Logged _ _ _).at s))) keyed
  apply_load-WellKeyed corrupt s keyed =
      subst WellKeyed (sym (logged_states ((log-Logged _ _ _).at s))) keyed
  apply_load-WellKeyed (loaded sts) s keyed =
      subst WellKeyed (sym (logged_states ((log-Logged _ _ _).at _)))
        (assign_all-WellKeyed sts s.states keyed)

  allocated-WellKeyed :
      (allocated : Bool) (content : Bytes) (s : Sys)
      → WellKeyed s.states
      → let load =
          if allocated
          then (apply_load (load_file content) >>= λ _. pure returned)
          else pure aborted in
        WellKeyed (load s).1.states
  unfolding ◌>>=◌ pure
  allocated-WellKeyed true content s keyed = apply_load-WellKeyed (load_file content) s keyed
  allocated-WellKeyed false content s keyed = keyed

  load_content-WellKeyed :
      (file : Option Bytes) (s : Sys)
      → WellKeyed s.states
      → WellKeyed (load_content file s).1.states
  unfolding load_content ◌>>=◌ Monad.gets pure
  load_content-WellKeyed none s keyed =
      subst WellKeyed (sym (logged_states ((log-Logged _ _ _).at s))) keyed
  load_content-WellKeyed (some content) s keyed =
      allocated-WellKeyed (can_hold (allocation content) s.calls) content s keyed

  -- Whatever the file of the states holds, a load keeps the table well keyed: each key stands once and
  -- is the hash of its state.
  initialize_state_storage-WellKeyed :
      (s : Sys) → WellKeyed s.states → WellKeyed (initialize_state_storage s).1.states
  unfolding initialize_state_storage ◌>>=◌ Monad.perform
  initialize_state_storage-WellKeyed s keyed =
      load_content-WellKeyed (env.file s.calls state_file)
        (record s { calls = Call.read_file state_file ∷ s.calls }) keyed

  found_after :
      (st : PackageState) (m w : States)
      → w ≡ assign (hash_package_name chrome) st m
      → state_of chrome w ≡ st
  unfolding state_of
  found_after st m w e = ap (or_default (hash_package_name chrome)) (
      ap (find (hash_package_name chrome)) e
      ∙ (find-assign (hash_package_name chrome) (hash_package_name chrome) st m
          ∙ chosen (hash_package_name chrome)))
    where
      chosen : (k : ℕ) → (if k == k then some st else find k m) ≡ some st
      chosen k = ground arith

  write_and_read_passes : (st1 : PackageState) (t : Sys) → (write_and_read st1 t).0 ≡ passed
  unfolding write_and_read update_package_state get_package_state ◌>>=◌ Monad.modify Monad.gets pure
  write_and_read_passes st1 t =
      let u = (update_package_state chrome (changed st1) t).1 in
      let found =
        found_after (changed st1) t.states (save_state_atomic u).1.states
          (logged_states (save_state_atomic-Logged.at u)) in
      rw found refl

  hashes_differ : (hash_package_name chrome == hash_package_name youtube) ≡ false
  unfolding hash_package_name bytes
  hashes_differ = refl

  hash_test :
      (b : Bool) (st1 : PackageState) (t : Sys)
      → b ≡ true
      → ((if b then write_and_read st1 else pure failed) t).0 ≡ passed
  hash_test b st1 t e = rw e (write_and_read_passes st1 t)

  name_test :
      (b : Bool) (m : St TestEnd) (s : Sys)
      → b ≡ false
      → ((if not b then m else pure failed) s).0 ≡ (m s).0
  name_test b m s e = rw e refl

  load_test :
      (load : LoadEnd) (t : Sys)
      → load ≡ returned
      → (test_state load t).0 ≡ (test_state returned t).0
  load_test load t e = ap (λ l. (test_state l t).0) e

  -- On every device and whatever the file of the states holds, unless the process is ended by the
  -- allocation of the vector for the loaded states, all assertions of the test of the state storage
  -- hold when it starts with the empty table: the two hashes differ, the state that is read
  -- carries the hash of its name, and after the update and the save the time that was written is read
  -- back.
  pub test_state_storage_passes :
      (s : Sys)
      → s.states ≡ []
      → (initialize_state_storage s).0 ≡ returned
      → (test_state_storage s).0 ≡ passed
  unfolding test_state_storage test_state get_package_state ◌>>=◌ Monad.gets pure
  test_state_storage_passes s empty returns =
      let t = (initialize_state_storage s).1 in
      let keyed = initialize_state_storage-WellKeyed s (subst WellKeyed (sym empty) tt) in
      let hash : (state_of chrome t.states).hash ≡ hash_package_name chrome =
        or_default-hash (hash_package_name chrome) t.states keyed in
      name_test _ _ s hashes_differ
      ∙ (load_test (initialize_state_storage s).0 t returns
          ∙ hash_test _ (state_of chrome t.states) t ((==_iff _ _).1 hash))
