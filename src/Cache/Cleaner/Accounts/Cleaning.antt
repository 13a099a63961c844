-- ===== src/Cache/Cleaner/Accounts/Cleaning.antt =====
-- A whole cleaning counts no more files than it makes calls to remove.
use fresh_core_native.Prelude.{
  ℕ, ◌+◌, ◌≤◌, Bytes, join, true, false, Option, none, some, List, [], ◌∷◌, arith,
}
use fresh_core_native.CacheData.{CacheDirInfo}
use fresh_core_native.Os.{Env}
use fresh_core_native.Sys.{Sys}
use fresh_core_native.Sys.Still.{Anywhere, Still-IsPreorder}
use fresh_core_native.Sys.Accounts.{
  removals, owed, Counts, Accounts-return, Accounts-after, Accounts-Still, Accounts-if,
  Accounts-bind,
}
use fresh_core_native.Logging.Calls.{log-Still}
use fresh_core_native.Filesystem.Calls.{get_directory_children-Still}
use fresh_core_native.StateStorage.Calls.{
  get_current_time_ms-Still, get_package_state-Still, update_package_state-Still,
  save_state_atomic-Still,
}
use fresh_core_native.Cache.Cleaner.{
  clean_children, record_cleanup, clean_listed, clean_directory_safely,
}
use fresh_core_native.Cache.Cleaner.Accounts.{Balanced, remove_recursive_batched-Balanced}

balanced_count :
    {A : Type 0} (r : Option A) {s t : Sys}
    → Counts 0 (owed (λ _. 0) r) s t
    → t.totals.files_processed + removals s.calls ≤ s.totals.files_processed + removals t.calls
balanced_count none h = omega (arith, h.bound)
balanced_count (some _) h = omega (arith, h.bound)

module _ ⦃env : Env⦄ where
  clean_children-Balanced :
      (fuel : ℕ) (target : CacheDirInfo) (children : List Bytes)
      → Balanced (clean_children fuel target children)
  unfolding clean_children Balanced
  clean_children-Balanced fuel target [] k = Accounts-return _ _ true (omega arith)
  clean_children-Balanced fuel target (child ∷ children) k =
      Accounts-bind _ (λ _. k) _ _ _
        (remove_recursive_batched-Balanced fuel (join target.path child) k)
        λ removed.
          Accounts-if _ _ _ _ _
            (Accounts-after (log-Still _ _ _) λ _. Accounts-return _ _ false (omega arith))
            (clean_children-Balanced fuel target children k)

  record_cleanup-Balanced : (target : CacheDirInfo) → Balanced (record_cleanup target)
  unfolding record_cleanup Balanced
  record_cleanup-Balanced target k = Accounts-after (log-Still _ _ _) λ _.
      Accounts-after (get_package_state-Still _) λ state.
        Accounts-after get_current_time_ms-Still λ now.
          Accounts-after (update_package_state-Still _ _)
            λ _. Accounts-Still {P = Anywhere} _ _ save_state_atomic-Still

  clean_listed-Balanced :
      (fuel : ℕ) (target : CacheDirInfo) (children : Option (List Bytes))
      → Balanced (clean_listed fuel target children)
  unfolding clean_listed Balanced
  clean_listed-Balanced fuel target none k = Accounts-return _ _ true (omega arith)
  clean_listed-Balanced fuel target (some children) k =
      Accounts-bind _ (λ _. k) _ _ _ (clean_children-Balanced fuel target children k)
        λ done.
          Accounts-if _ _ _ _ _
            (Accounts-bind _ (λ _. k) _ _ _ (record_cleanup-Balanced target k)
              λ _. Accounts-return _ _ true (omega arith))
            (Accounts-return _ _ false (omega arith))

  clean_directory_safely-Balanced :
      (fuel : ℕ) (target : CacheDirInfo) → Balanced (clean_directory_safely fuel target)
  unfolding clean_directory_safely Balanced
  clean_directory_safely-Balanced fuel target k = Accounts-after (log-Still _ _ _) λ _.
      Accounts-after (get_directory_children-Still target.path)
        λ children. clean_listed-Balanced fuel target children k

  -- Whatever the device answers and with any fuel, one cleaning of a target adds to the count of
  -- processed files, over all its batches and on all its ways out, at most the number of its calls of
  -- rmdir and unlink.
  pub clean_directory_safely_counts :
      (fuel : ℕ) (target : CacheDirInfo) (s : Sys)
      → let t = (clean_directory_safely fuel target s).1 in
        t.totals.files_processed + removals s.calls ≤ s.totals.files_processed + removals t.calls
  unfolding Balanced
  clean_directory_safely_counts fuel target s =
      balanced_count _ ((clean_directory_safely-Balanced fuel target 0).at s)
