-- ===== src/Cache/Scanner/Termination.antt =====
-- Measuring a directory ends: fuel for one level more than PATH_MAX allows is enough.
use native.Mathlib.Decide.{dec_le}
use fresh_core_native.Prelude.{
  ℕ, zero, suc, ◌+◌, ◌<◌, ◌≡◌, slash, u64, Bytes, join, length, length-append, Option, none, some,
  List, [], ◌∷◌, arith,
}
use fresh_core_native.CacheData.{CacheDirInfo}
use fresh_core_native.Os.{Env, Stat}
use fresh_core_native.Sys.Fuel.{Prog}
use fresh_core_native.Sys.Finishes.{
  Finishes, Finishes-bind, Finishes-lift, Finishes-bind_knowing, finishes,
}
use fresh_core_native.Filesystem.Limits.{PathLimit, get_directory_children_too_long}
use fresh_core_native.Cache.Scanner.{
  child_size, sum_children, size_of_children, get_directory_size, calculate_cache_size,
}

-- The fuel that is left covers the levels that the path has left.
abbrev pub Covers : ℕ → Bytes → Type 0
Covers fuel path = (0 < fuel) × (4096 < fuel + length path)

pub Covers-child :
    (fuel : ℕ) (path name : Bytes)
    → Covers (suc fuel) path
    → length path < 4096
    → Covers fuel (join path name)
Covers-child fuel path name c short = omega (arith, length-append path (slash ∷ name))

module _ ⦃env : Env⦄ where
  module _ (inner : Bytes → Prog ℕ) (fuel : ℕ)
      (ends : (path : Bytes) → Covers fuel path → Finishes (inner path)) where
    child_size-Finishes :
        (path : Bytes) (st : Option Stat) → Covers fuel path → Finishes (child_size inner path st)
    unfolding child_size
    child_size-Finishes path none c = search finishes
    child_size-Finishes path (some st) c = search (finishes, ends)

    sum_children-Finishes :
        (path : Bytes) (size : ℕ) (children : List Bytes)
        → ((name : Bytes) → Covers fuel (join path name))
        → Finishes (sum_children inner path size children)
    unfolding sum_children
    sum_children-Finishes path size [] c = search finishes
    sum_children-Finishes path size (child ∷ children) c = Finishes-bind _ _ (Finishes-lift _) λ st.
        Finishes-bind _ _ (child_size-Finishes (join path child) st (c child))
          λ more. sum_children-Finishes path (u64 (size + more)) children c

    size_of_children-Finishes :
        (path : Bytes) (children : Option (List Bytes))
        → ((name : Bytes) → Covers fuel (join path name))
        → Finishes (size_of_children inner path children)
    unfolding size_of_children
    size_of_children-Finishes path none c = search finishes
    size_of_children-Finishes path (some children) c = sum_children-Finishes path 0 children c

  size_of_none :
      (inner : Bytes → Prog ℕ) (path : Bytes) (children : Option (List Bytes))
      → children ≡ none
      → Finishes (size_of_children inner path children)
  unfolding size_of_children
  size_of_none inner path none e = search finishes
  size_of_none inner path (some children) e = cc

  module _ (limit : PathLimit env.open_dir) where
    get_directory_size-Finishes :
        (fuel : ℕ) (path : Bytes) → Covers fuel path → Finishes (get_directory_size fuel path)
    unfolding get_directory_size
    get_directory_size-Finishes zero path c = absurd (omega arith)
    get_directory_size-Finishes (suc fuel) path c = elim (dec_le 4096 (length path)) [
      | yes long ↦
          Finishes-bind_knowing _ _ (get_directory_children_too_long limit path long)
            (size_of_none (get_directory_size fuel) path)
      | no short ↦ Finishes-bind _ _ (Finishes-lift _) λ children.
          size_of_children-Finishes (get_directory_size fuel) fuel
            (get_directory_size-Finishes fuel) path children
            (λ name. Covers-child fuel path name c (omega arith))
    ]

    pub calculate_cache_size-Finishes :
        (fuel : ℕ) (dir : CacheDirInfo) → 4096 < fuel → Finishes (calculate_cache_size fuel dir)
    unfolding calculate_cache_size
    calculate_cache_size-Finishes fuel dir f =
        let size = get_directory_size-Finishes fuel dir.path (omega arith) in
        search finishes depth 10
