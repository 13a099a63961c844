-- ===== src/Cache/Cleaner/PlainFiles.antt =====
-- A plain file directly in a cache directory stops its cleaning.
use fresh_core_native.Prelude.{
  ℕ, zero, suc, ◌<◌, ◌≡◌, refl, Bytes, join, Bool, true, false, Option, none, some, List, ◌∷◌,
  arith,
}
use fresh_core_native.CacheData.{CacheDirInfo}
use fresh_core_native.Os.{Env, Call, History}
use fresh_core_native.Sys.{Sys}
use fresh_core_native.Sys.Monad
use fresh_core_native.Sys.Fuel.{
  Returns, Returns-return, Returns-lift, Returns-out_of_fuel, Returns-bind, Returns-any, OnSome,
}
use fresh_core_native.Sys.Finishes.{IsDefined}
use fresh_core_native.Filesystem.{children_of, get_directory_children}
use fresh_core_native.Filesystem.Limits.{PathLimit}
use fresh_core_native.Cache.Cleaner.{
  remove_listed, remove_recursive_batched, clean_children, clean_listed, clean_directory_safely,
}
use fresh_core_native.Cache.Cleaner.Termination.{clean_directory_safely-Finishes}

abbrev IsFalse : Bool → Type 0
IsFalse b = b ≡ false

defined_false : (r : Option Bool) → IsDefined r → OnSome IsFalse r → r ≡ some false
defined_false none d h = absurd d
defined_false (some b) d h = rw h refl

module _ ⦃env : Env⦄ where
  get_directory_children_unopened :
      (path : Bytes)
      → ((h : History) → env.open_dir h path ≡ false)
      → (s : Sys) → (get_directory_children path s).0 ≡ none
  unfolding get_directory_children Monad.◌>>=◌
  get_directory_children_unopened path closed s = rw (closed s.calls) refl

  remove_recursive_batched_unopened :
      (fuel : ℕ) (path : Bytes)
      → ((h : History) → env.open_dir h path ≡ false)
      → Returns IsFalse (remove_recursive_batched fuel path)
  unfolding remove_recursive_batched remove_listed
  remove_recursive_batched_unopened zero path closed = Returns-out_of_fuel
  remove_recursive_batched_unopened (suc fuel) path closed =
      Returns-bind {T = λ children. children ≡ none} _ _
        (Returns-lift _ (get_directory_children_unopened path closed))
        λ children e. rw e (Returns-return false refl)

  clean_children_stops :
      (fuel : ℕ) (target : CacheDirInfo) (child : Bytes) (names : List Bytes)
      → ((h : History) → env.open_dir h (join target.path child) ≡ false)
      → Returns IsFalse (clean_children fuel target (child ∷ names))
  unfolding clean_children
  clean_children_stops fuel target child names closed =
      Returns-bind {T = IsFalse} _ _
        (remove_recursive_batched_unopened fuel (join target.path child) closed)
        λ removed e. rw e (Returns-bind _ _ (Returns-any _) (λ _ _. Returns-return false refl))

  clean_listed_stops :
      (fuel : ℕ) (target : CacheDirInfo) (child : Bytes) (names : List Bytes)
      → ((h : History) → env.open_dir h (join target.path child) ≡ false)
      → Returns IsFalse (clean_listed fuel target (some (child ∷ names)))
  unfolding clean_listed
  clean_listed_stops fuel target child names closed =
      Returns-bind {T = IsFalse} _ _ (clean_children_stops fuel target child names closed)
        λ done e. rw e (Returns-return false refl)

  -- A directory that can be read, with its children given.
  pub record IsListed (path : Bytes) (children : List Bytes) : Type 0 where
    pub opens : (h : History) → env.open_dir h path ≡ true
    pub reads : (h : History) → env.fdopendir h path ≡ true
    pub lists : (h : History) → children_of (env.entries h path) ≡ children

module _ ⦃env : Env⦄ where
  get_directory_children_listed :
      (path : Bytes) (children : List Bytes)
      → IsListed path children
      → (s : Sys) → (get_directory_children path s).0 ≡ some children
  unfolding get_directory_children Monad.◌>>=◌ Monad.perform
  get_directory_children_listed path children is_listed s = ground (
    arith,
    is_listed.opens s.calls,
    is_listed.reads (Call.open_dir path ∷ s.calls),
    is_listed.lists (Call.fdopendir path ∷ Call.open_dir path ∷ s.calls),
  )

  clean_directory_safely-false :
      (fuel : ℕ) (target : CacheDirInfo) (child : Bytes) (names : List Bytes)
      → IsListed target.path (child ∷ names)
      → ((h : History) → env.open_dir h (join target.path child) ≡ false)
      → Returns IsFalse (clean_directory_safely fuel target)
  unfolding clean_directory_safely
  clean_directory_safely-false fuel target child names is_listed closed =
      Returns-bind _ _ (Returns-any _) λ _ _.
        Returns-bind {T = λ children. children ≡ some (child ∷ names)} _ _
          (Returns-lift _ (get_directory_children_listed target.path (child ∷ names) is_listed))
          λ children e. rw e (clean_listed_stops fuel target child names closed)

  -- Where a cache directory can be read and its first entry cannot be opened as a directory, as a
  -- plain file cannot, cleaning it returns false, with a fuel of 4097 and where open refuses paths of
  -- PATH_MAX bytes.
  pub clean_directory_safely_plain_file :
      (limit : PathLimit env.open_dir) (fuel : ℕ)
      → 4096 < fuel
      → (target : CacheDirInfo) (child : Bytes) (names : List Bytes)
      → IsListed target.path (child ∷ names)
      → ((h : History) → env.open_dir h (join target.path child) ≡ false)
      → (s : Sys) → (clean_directory_safely fuel target s).0 ≡ some false
  clean_directory_safely_plain_file limit fuel enough target child names is_listed closed s =
      defined_false (clean_directory_safely fuel target s).0
        ((clean_directory_safely-Finishes limit fuel enough target).at s)
        ((clean_directory_safely-false fuel target child names is_listed closed).at s)
