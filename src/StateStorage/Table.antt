-- ===== src/StateStorage/Table.antt =====
-- The table of package states is keyed by the hash of the name.
use fresh_core_native.Prelude.{
  ℕ, ◌≡◌, refl, ◌∙◌, ap, Bytes, some, List, [], ◌∷◌, ◌==◌, if◌then◌else◌, arith,
}
use fresh_core_native.CacheData.{PackageState, States, find, assign}
use fresh_core_native.Os.{Env}
use fresh_core_native.Sys.{Sys}
use fresh_core_native.Sys.Monad.{St, pure, ◌>>=◌, ◌>>◌}
use fresh_core_native.Sys.Monad
use fresh_core_native.StateImage.{hash_package_name}
use fresh_core_native.StateStorage.{state_of, get_package_state, update_package_state}

pub find-assign :
    (j k : ℕ) (st : PackageState) (m : States)
    → find j (assign k st m) ≡ (if j == k then some st else find j m)
unfolding find assign
find-assign j k st [] = ground arith
find-assign j k st ((i, w) ∷ m) = ground (arith, find-assign j k st m)

-- The state of the last update whose package has the hash `k`, or `old`.
abbrev pub latest : ℕ → List (Bytes × PackageState) → PackageState → PackageState
latest k [] old = old
latest k ((name, st) ∷ updates) old =
    latest k updates (if k == hash_package_name name then st else old)

module _ ⦃env : Env⦄ where
  -- After an update of one package, every package whose name has the same hash reads the new state,
  -- and every other package reads what it read before.
  pub get_package_state_updated :
      (pkg_name other : Bytes) (st : PackageState) (s : Sys)
      → (get_package_state other (update_package_state pkg_name st s).1).0 ≡ (
          if hash_package_name other == hash_package_name pkg_name
          then st
          else (get_package_state other s).0)
  unfolding get_package_state update_package_state state_of Monad.gets Monad.modify
  get_package_state_updated pkg_name other st s =
      rw (find-assign (hash_package_name other) (hash_package_name pkg_name) st s.states)
        (ground arith)

  -- UpdatePackageState, call after call.
  unfoldable pub updates : List (Bytes × PackageState) → St (Unit {0})
  updates [] = pure tt
  updates ((name, st) ∷ rest) = do update_package_state name st; updates rest

  -- After any updates, a package reads the state of the last update of a package whose name has the
  -- same hash, and what it read before where there was none.
  pub get_package_state-latest :
      (other : Bytes) (ups : List (Bytes × PackageState)) (s : Sys)
      → (get_package_state other (updates ups s).1).0
        ≡ latest (hash_package_name other) ups (get_package_state other s).0
  unfolding updates ◌>>=◌ pure
  get_package_state-latest other [] s = refl
  get_package_state-latest other ((name, st) ∷ rest) s =
      get_package_state-latest other rest (update_package_state name st s).1
      ∙ ap (latest (hash_package_name other) rest) (get_package_state_updated name other st s)
