-- ===== src/Cache/Cleaner/Accounts.antt =====
-- The files that a cleaning of cache/cache_cleaner.cpp reports to EndBatch, against those that it
-- removes.
pub mod Cleaning
use fresh_core_native.Prelude.{
  ℕ, zero, suc, ◌+◌, ◌≤◌, Bytes, join, Bool, true, false, Option, none, some, List, [], ◌∷◌, arith,
  if◌then◌else◌,
}
use fresh_core_native.CacheData.{CacheDirInfo}
use fresh_core_native.Os.{Env, Stat}
use fresh_core_native.Sys.{Sys}
use fresh_core_native.Sys.Monad.{St, Runs}
use fresh_core_native.Sys.Still.{Anywhere, Still, Still-IsPreorder, stills}
use fresh_core_native.Sys.Fuel.{Prog, return, out_of_fuel, lift, ◌>>=◌}
use fresh_core_native.Sys.Accounts.{
  removals, owed, Counts, Counts-Still, Counts-drop, Accounts, Accounts-return,
  Accounts-out_of_fuel, Accounts-lift, Accounts-after, Accounts-Still, Accounts-if, Accounts-bind,
}
use fresh_core_native.Logging.Calls.{log-Still}
use fresh_core_native.Filesystem.Calls.{lstat-Still, get_directory_children-Still}
use fresh_core_native.Filesystem.{safe_remove}
use fresh_core_native.Filesystem.Accounts.{safe_remove-Counts}
use fresh_core_native.Power.Idle.Calls.{evaluate_idle_state-Still}
use fresh_core_native.Diagnostics.{end_batch}
use fresh_core_native.Diagnostics.Calls.{start_batch-Still}
use fresh_core_native.Diagnostics.Accounts.{end_batch-Counts}
use fresh_core_native.StateStorage.Calls.{
  get_current_time_ms-Still, get_package_state-Still, update_package_state-Still,
  save_state_atomic-Still,
}
use fresh_core_native.Cache.Cleaner.{
  Batch, is_not_idle, empty_batch, count_file, remove_child, roll_batch, roll_if, remove_round,
  go_on_with, remove_children, finish, remove_listed, remove_recursive_batched, clean_children,
  record_cleanup, clean_listed, clean_directory_safely,
}

-- The files pending after a round, where `k` are beside those of the batch.
abbrev left : ℕ → Option Batch → ℕ
left k none = k
left k (some batch) = k + batch.files_removed

count_file-left :
    (k : ℕ) (removed : Bool) (size : ℕ) (batch : Batch)
    → left k (some (count_file removed size batch))
      ≤ (if removed then (k + batch.files_removed) + 1 else k + batch.files_removed)
count_file-left k true size batch = omega arith
count_file-left k false size batch = omega arith

removed_or_not : (m : ℕ) (removed : Bool) → m ≤ (if removed then m + 1 else m)
removed_or_not m true = omega arith
removed_or_not m false = omega arith

still_left :
    (k : ℕ) (removed : Bool) (batch : Batch)
    → left k (if removed then some batch else none) ≤ k + batch.files_removed
still_left k true batch = omega arith
still_left k false batch = omega arith

-- Nothing is pending but what was before.
unfoldable pub Balanced : {A : Type 0} → Prog A → Type 0
Balanced p = (k : ℕ) → Accounts k (λ _. k) p

module _ ⦃env : Env⦄ where
  finish-Accounts :
      (k : ℕ) (path : Bytes) (batch : Option Batch)
      → Accounts (left k batch) (λ _. k) (finish path batch)
  unfolding finish
  finish-Accounts k path none = Accounts-return (λ _. k) k false (omega arith)
  finish-Accounts k path (some batch) =
      Accounts-bind _ (λ _. k) _ _ _
        (Accounts-lift (λ _. k) _ _ (end_batch-Counts k batch.files_removed batch.bytes_freed))
        λ _.
          Accounts-bind _ (λ _. k) _ _ _
            (Accounts-lift (λ _. k) _ _
              (λ s. Counts-drop k _ k (removed_or_not k _) (safe_remove-Counts k path s)))
            λ _. Accounts-return (λ _. k) k true (omega arith)

  roll_batch-Accounts :
      (k : ℕ) (batch : Batch) → Accounts (k + batch.files_removed) (left k) (roll_batch batch)
  unfolding roll_batch
  roll_batch-Accounts k batch = Accounts-after (search stills) λ max_files.
      Accounts-if _ _ _ _ _
        (Accounts-bind _ (λ _. k) _ _ _
          (Accounts-lift (λ _. k) _ _ (end_batch-Counts k batch.files_removed batch.bytes_freed))
          λ go_on. Accounts-if _ _ _ _ _ (Accounts-return _ _ none (omega arith)) (
            Accounts-after (search stills) λ _.
              Accounts-after start_batch-Still
                λ _. Accounts-return _ _ (some empty_batch) (omega arith)))
        (Accounts-return _ _ (some batch) (omega arith))

  roll_if-Accounts :
      (k : ℕ) (batch : Option Batch) → Accounts (left k batch) (left k) (roll_if batch)
  unfolding roll_if
  roll_if-Accounts k none = Accounts-return _ _ none (omega arith)
  roll_if-Accounts k (some batch) = roll_batch-Accounts k batch

  go_on_with-Accounts :
      (k : ℕ) (rest : Batch → Prog (Option Batch))
      → ((batch : Batch) → Accounts (k + batch.files_removed) (left k) (rest batch))
      → (after : Option Batch) → Accounts (left k after) (left k) (go_on_with rest after)
  unfolding go_on_with
  go_on_with-Accounts k rest h none = Accounts-return _ _ none (omega arith)
  go_on_with-Accounts k rest h (some batch) = h batch

  module _ (inner : Bytes → Prog Bool) (balanced : (path : Bytes) → Balanced (inner path)) where
    remove_child-Accounts :
        (k : ℕ) (path : Bytes) (st : Option Stat) (batch : Batch)
        → Accounts (k + batch.files_removed) (left k) (remove_child inner path st batch)
    unfolding remove_child Balanced
    remove_child-Accounts k path none batch = Accounts-return _ _ (some batch) (omega arith)
    remove_child-Accounts k path (some st) batch =
        Accounts-if _ _ _ _ _
          (Accounts-bind _ (λ _. k + batch.files_removed) _ _ _ (balanced path _)
            λ removed. Accounts-return _ _ _ (still_left k removed batch))
          (Accounts-bind _
            (λ (removed : Bool).
              if removed then (k + batch.files_removed) + 1 else k + batch.files_removed)
            _ _ _ (Accounts-lift _ _ _ (safe_remove-Counts (k + batch.files_removed) path))
            λ removed. Accounts-return _ _ _ (count_file-left k removed st.size batch))

    remove_round-Accounts :
        (k : ℕ) (path : Bytes) (batch : Batch)
        → Accounts (k + batch.files_removed) (left k) (remove_round inner path batch)
    unfolding remove_round
    remove_round-Accounts k path batch = Accounts-after evaluate_idle_state-Still λ idle.
        Accounts-if _ _ _ _ _
          (Accounts-after (log-Still _ _ _) λ _. Accounts-return _ _ none (omega arith))
          (Accounts-after (lstat-Still path) λ st.
            Accounts-bind _ (left k) _ _ _ (remove_child-Accounts k path st batch)
              (roll_if-Accounts k))

    remove_children-Accounts :
        (k : ℕ) (path : Bytes) (children : List Bytes) (batch : Batch)
        → Accounts (k + batch.files_removed) (left k) (remove_children inner path children batch)
    unfolding remove_children
    remove_children-Accounts k path [] batch = Accounts-return _ _ (some batch) (omega arith)
    remove_children-Accounts k path (child ∷ children) batch =
        Accounts-bind _ (left k) _ _ _ (remove_round-Accounts k (join path child) batch)
          (go_on_with-Accounts k _ (remove_children-Accounts k path children))

    remove_listed-Balanced :
        (path : Bytes) (children : Option (List Bytes))
        → Balanced (remove_listed inner path children)
    unfolding remove_listed Balanced
    remove_listed-Balanced path none k = Accounts-return _ _ false (omega arith)
    remove_listed-Balanced path (some children) k =
        Accounts-bind _ (λ _. k + 0) _ _ _
          (Accounts-lift _ k _ (λ s.
            Counts-drop k k (k + 0) (omega arith)
              (Counts-Still {P = Anywhere} k (start_batch-Still.at s))))
          λ _.
            Accounts-bind _ (left k) _ _ _ (remove_children-Accounts k path children empty_batch)
              (finish-Accounts k path)

  pub remove_recursive_batched-Balanced :
      (fuel : ℕ) (path : Bytes) → Balanced (remove_recursive_batched fuel path)
  unfolding remove_recursive_batched Balanced
  remove_recursive_batched-Balanced zero path k = Accounts-out_of_fuel
  remove_recursive_batched-Balanced (suc fuel) path k =
      Accounts-after (get_directory_children-Still path) λ children.
        remove_listed-Balanced _ (remove_recursive_batched-Balanced fuel) path children k
