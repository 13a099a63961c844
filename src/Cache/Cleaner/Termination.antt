-- ===== src/Cache/Cleaner/Termination.antt =====
-- The removal of a directory ends: fuel for one level more than PATH_MAX allows is enough.
use native.Mathlib.Decide.{dec_le}
use fresh_core_native.Prelude.{
  ℕ, zero, suc, ◌<◌, ◌≡◌, Bytes, join, length, Bool, Option, none, some, List, [], ◌∷◌, arith,
}
use fresh_core_native.CacheData.{CacheDirInfo}
use fresh_core_native.Os.{Env, Stat}
use fresh_core_native.Sys.Fuel.{Prog}
use fresh_core_native.Sys.Finishes.{
  Finishes, Finishes-bind, Finishes-lift, Finishes-return, Finishes-if, Finishes-bind_knowing,
  finishes,
}
use fresh_core_native.Filesystem.Limits.{PathLimit, get_directory_children_too_long}
use fresh_core_native.Cache.Scanner.Termination.{Covers, Covers-child}
use fresh_core_native.Cache.Cleaner.{
  Batch, remove_child, roll_if, remove_round, go_on_with, remove_children, finish, remove_listed,
  remove_recursive_batched, clean_children, record_cleanup, clean_listed, clean_directory_safely,
}

module _ ⦃env : Env⦄ where
  roll_if-Finishes : (batch : Option Batch) → Finishes (roll_if batch)
  unfolding roll_if
  roll_if-Finishes none = search finishes
  roll_if-Finishes (some batch) = search finishes depth 20

  go_on_with-Finishes :
      (rest : Batch → Prog (Option Batch)) (after : Option Batch)
      → ((batch : Batch) → Finishes (rest batch))
      → Finishes (go_on_with rest after)
  unfolding go_on_with
  go_on_with-Finishes rest none h = search finishes
  go_on_with-Finishes rest (some batch) h = h batch

  finish-Finishes : (path : Bytes) (batch : Option Batch) → Finishes (finish path batch)
  unfolding finish
  finish-Finishes path none = search finishes
  finish-Finishes path (some batch) = search finishes depth 20

  module _ (inner : Bytes → Prog Bool) (fuel : ℕ)
      (ends : (path : Bytes) → Covers fuel path → Finishes (inner path)) where
    remove_child-Finishes :
        (path : Bytes) (st : Option Stat) (batch : Batch)
        → Covers fuel path
        → Finishes (remove_child inner path st batch)
    unfolding remove_child
    remove_child-Finishes path none batch c = search finishes
    remove_child-Finishes path (some st) batch c = search (finishes, ends) depth 10

    remove_round-Finishes :
        (path : Bytes) (batch : Batch) → Covers fuel path → Finishes (remove_round inner path batch)
    unfolding remove_round
    remove_round-Finishes path batch c =
        search (finishes, remove_child-Finishes, roll_if-Finishes) depth 20

    remove_children-Finishes :
        (path : Bytes) (children : List Bytes) (batch : Batch)
        → ((name : Bytes) → Covers fuel (join path name))
        → Finishes (remove_children inner path children batch)
    unfolding remove_children
    remove_children-Finishes path [] batch c = search finishes
    remove_children-Finishes path (child ∷ children) batch c =
        Finishes-bind _ _ (remove_round-Finishes (join path child) batch (c child)) λ after.
          go_on_with-Finishes _ after (λ next. remove_children-Finishes path children next c)

    remove_listed-Finishes :
        (path : Bytes) (children : Option (List Bytes))
        → ((name : Bytes) → Covers fuel (join path name))
        → Finishes (remove_listed inner path children)
    unfolding remove_listed
    remove_listed-Finishes path none c = search finishes
    remove_listed-Finishes path (some children) c =
        Finishes-bind _ _ (Finishes-lift _)
          λ _. Finishes-bind _ _ (remove_children-Finishes path children _ c) (finish-Finishes path)

  remove_none :
      (inner : Bytes → Prog Bool) (path : Bytes) (children : Option (List Bytes))
      → children ≡ none
      → Finishes (remove_listed inner path children)
  unfolding remove_listed
  remove_none inner path none e = search finishes
  remove_none inner path (some children) e = cc

  module _ (limit : PathLimit env.open_dir) where
    covered_removal-Finishes :
        (fuel : ℕ) (path : Bytes) → Covers fuel path → Finishes (remove_recursive_batched fuel path)
    unfolding remove_recursive_batched
    covered_removal-Finishes zero path c = absurd (omega arith)
    covered_removal-Finishes (suc fuel) path c = elim (dec_le 4096 (length path)) [
      | yes long ↦
          Finishes-bind_knowing _ _ (get_directory_children_too_long limit path long)
            (remove_none (remove_recursive_batched fuel) path)
      | no short ↦ Finishes-bind _ _ (Finishes-lift _) λ children.
          remove_listed-Finishes (remove_recursive_batched fuel) fuel
            (covered_removal-Finishes fuel) path children
            (λ name. Covers-child fuel path name c (omega arith))
    ]

    module _ (fuel : ℕ) (enough : 4096 < fuel) where
      pub remove_recursive_batched-Finishes :
          (path : Bytes) → Finishes (remove_recursive_batched fuel path)
      remove_recursive_batched-Finishes path = covered_removal-Finishes fuel path (omega arith)

      clean_children-Finishes :
          (target : CacheDirInfo) (children : List Bytes)
          → Finishes (clean_children fuel target children)
      unfolding clean_children
      clean_children-Finishes target [] = Finishes-return _
      clean_children-Finishes target (child ∷ children) =
          Finishes-bind _ _ (remove_recursive_batched-Finishes (join target.path child)) λ removed.
            Finishes-if _ _ _ (Finishes-bind _ _ (Finishes-lift _) (λ _. Finishes-return _))
              (clean_children-Finishes target children)

      record_cleanup-Finishes : (target : CacheDirInfo) → Finishes (record_cleanup target)
      unfolding record_cleanup
      record_cleanup-Finishes target = search finishes depth 20

      clean_listed-Finishes :
          (target : CacheDirInfo) (children : Option (List Bytes))
          → Finishes (clean_listed fuel target children)
      unfolding clean_listed
      clean_listed-Finishes target none = Finishes-return _
      clean_listed-Finishes target (some children) =
          Finishes-bind _ _ (clean_children-Finishes target children) λ done.
            Finishes-if _ _ _
              (Finishes-bind _ _ (record_cleanup-Finishes target) (λ _. Finishes-return _))
              (Finishes-return _)

      pub clean_directory_safely-Finishes :
          (target : CacheDirInfo) → Finishes (clean_directory_safely fuel target)
      unfolding clean_directory_safely
      clean_directory_safely-Finishes target = search (finishes, clean_listed-Finishes) depth 10
