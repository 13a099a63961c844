-- ===== src/StateStorage/Restore.antt =====
-- The table that a load builds from the file that a save wrote.
use fresh_core_native.Prelude.{
  ℕ, ◌<◌, ◌≡◌, refl, ◌∙◌, inl, inr, Bytes, Option, none, some, List, [], ◌∷◌, ◌==◌, Bool-cases,
  length, All, arith,
}
use fresh_core_native.CacheData.{PackageState, States, find, assign}
use fresh_core_native.Os.{Env}
use fresh_core_native.Sys.{Sys}
use fresh_core_native.Sys.Monad
use fresh_core_native.StateImage.{loaded, load_file, assign_all, hash_package_name}
use fresh_core_native.StateImage.RoundTrip.{FitsWords, file_bytes, load_file-file_bytes}
use fresh_core_native.StateStorage.{
  values, or_default, get_package_state, update_package_state, state_of,
}
use fresh_core_native.StateStorage.Table.{find-assign}

-- Each key stands once, and is the hash of its state.
abbrev pub WellKeyed : States → Type 0
WellKeyed [] = Unit
WellKeyed ((k, st) ∷ m) = (st.hash ≡ k) × ((find k m ≡ none) × WellKeyed m)

abbrev or_else : Option PackageState → Option PackageState → Option PackageState
or_else none d = d
or_else (some st) d = some st

-- What was in the table before stays where the file has no state.
pub find-assign_all :
    (k : ℕ) (w m : States)
    → WellKeyed w
    → find k (assign_all (values w) m) ≡ or_else (find k w) (find k m)
unfolding find assign_all
find-assign_all k [] m keyed = refl
find-assign_all k ((j, st) ∷ w) m keyed =
    let later = find-assign_all k w (assign st.hash st m) keyed.1.1 in
    elim (Bool-cases (j == k)) [
      | inl same ↦
          let e : j ≡ k = ground (arith, same) in
          rw (later, find-assign k st.hash st m, keyed.0, ← e, keyed.1.0) (ground arith)
      | inr other ↦ rw (later, find-assign k st.hash st m, keyed.0) (ground arith)
    ]

pub or_else-none : (r : Option PackageState) → or_else r none ≡ r
or_else-none none = refl
or_else-none (some st) = refl

-- A table that is walked in the order `w` is saved and loaded into the empty table: every hash finds
-- what it found in `w`; where each key stands once and is the hash of its state, the numbers are
-- within their C++ types, and there are fewer than 2^32 states.
save_and_load_finds :
    (timestamp : ℕ) (padding : ℕ → ℕ) (w : States)
    → length (values w) < 4294967296
    → timestamp < 18446744073709551616
    → All FitsWords (values w)
    → WellKeyed w
    → (sts : List PackageState) × ((load_file (file_bytes timestamp padding (values w))
          ≡ loaded sts)
        × ((k : ℕ) → find k (assign_all sts []) ≡ find k w))
unfolding find
save_and_load_finds timestamp padding w few time_fits fits keyed = (
  values w,
  (
    load_file-file_bytes timestamp padding (values w) few time_fits fits,
    λ k. find-assign_all k w [] keyed ∙ or_else-none (find k w),
  ),
)

pub assign-WellKeyed :
    (k : ℕ) (st : PackageState) (m : States) → st.hash ≡ k → WellKeyed m → WellKeyed (assign k st m)
unfolding assign find
assign-WellKeyed k st [] h keyed = (h, (refl, tt))
assign-WellKeyed k st ((j, w) ∷ m) h keyed = elim (Bool-cases (j == k)) [
  | inl same ↦ let e : j ≡ k = ground (arith, same) in rw same (h, (rw (← e) keyed.1.0, keyed.1.1))
  | inr other ↦
      rw other
        (keyed.0, (rw (find-assign j k st m, other) keyed.1.0, assign-WellKeyed k st m h keyed.1.1))
]

pub or_default-hash : (k : ℕ) (m : States) → WellKeyed m → (or_default k (find k m)).hash ≡ k
unfolding find
or_default-hash k [] keyed = refl
or_default-hash k ((j, w) ∷ m) keyed = elim (Bool-cases (j == k)) [
  | inl same ↦ rw (same, keyed.0) (ground (arith, same))
  | inr other ↦ rw other (or_default-hash k m keyed.1.1)
]

module _ ⦃env : Env⦄ where
  -- Reading the state of a package, changing it in any way that leaves its hash, and storing it back
  -- keeps the table well keyed: each key stands once and is the hash of its state.
  pub update_package_state-WellKeyed :
      (pkg_name : Bytes) (change : PackageState → PackageState)
      → ((st : PackageState) → (change st).hash ≡ st.hash)
      → (s : Sys) → WellKeyed s.states
      → WellKeyed
          (update_package_state pkg_name (change (get_package_state pkg_name s).0) s).1.states
  unfolding update_package_state get_package_state state_of Monad.gets Monad.modify
  update_package_state-WellKeyed pkg_name change keeps s keyed =
      assign-WellKeyed (hash_package_name pkg_name) (change (get_package_state pkg_name s).0)
        s.states
        (keeps (get_package_state pkg_name s).0
          ∙ or_default-hash (hash_package_name pkg_name) s.states keyed)
        keyed
