-- ===== src/StateStorage/Abstract.antt =====
-- The table of package states as its users see it: what each hash finds, in no order.
use mathlib.Core.Quot
use mathlib.Core.Quot.{Quot, Quot-set}
use fresh_core_native.Prelude.{ℕ, ◌≡◌, refl, ap, Bytes, Option, some, ◌==◌, if◌then◌else◌}
use fresh_core_native.CacheData.{PackageState, States, find, assign}
use fresh_core_native.Os.{Env}
use fresh_core_native.Sys.{Sys}
use fresh_core_native.Sys.Monad
use fresh_core_native.StateImage.{hash_package_name}
use fresh_core_native.StateStorage.{or_default, state_of, get_package_state, update_package_state}
use fresh_core_native.StateStorage.Table.{find-assign}

-- Every hash finds the same.
abbrev pub SameFinds : States → States → Type 0
SameFinds m n = (k : ℕ) → find k m ≡ find k n

abbrev pub Table : Type 0
Table = Quot SameFinds

abbrev pub table_of : States → Table
table_of = Quot.mk

PackageState_set : IsSet PackageState
PackageState_set = hlevel

Option_set : IsSet (Option PackageState)
Option_set = hlevel PackageState_set

pub lookup : ℕ → Table → Option PackageState
lookup k = Quot.lift Option_set (find k) λ m n h. h k

assign-SameFinds :
    (k : ℕ) (st : PackageState) (m n : States)
    → SameFinds m n
    → SameFinds (assign k st m) (assign k st n)
assign-SameFinds k st m n h j = rw (find-assign j k st m, find-assign j k st n, h j) refl

-- The state of a hash is set.
pub put : ℕ → PackageState → Table → Table
put k st =
    Quot.lift Quot-set (λ m. table_of (assign k st m))
      λ m n h. Quot.sound (assign-SameFinds k st m n h)

-- A table is what its hashes find, and no more.
table_of-exact : {m n : States} → table_of m ≡ table_of n → SameFinds m n
unfolding lookup
table_of-exact e k = ap (lookup k) e

lookup-put :
    (j k : ℕ) (st : PackageState) (t : Table)
    → lookup j (put k st t) ≡ (if j == k then some st else lookup j t)
unfolding lookup put
lookup-put j k st = Quot.ind (λ _. Option_set _ _) (find-assign j k st)

module _ ⦃env : Env⦄ where
  -- GetPackageState is a lookup in the table, and UpdatePackageState sets a state in it.
  package_state_refines :
      (pkg_name : Bytes) (st : PackageState) (s : Sys)
      → ((get_package_state pkg_name s).0
          ≡ or_default
              (hash_package_name pkg_name)
              (lookup (hash_package_name pkg_name) (table_of s.states)))
        × (table_of (update_package_state pkg_name st s).1.states
            ≡ put (hash_package_name pkg_name) st (table_of s.states))
  unfolding lookup put get_package_state update_package_state state_of Monad.gets Monad.modify
  package_state_refines pkg_name st s = (refl, refl)
