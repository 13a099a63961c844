-- ===== src/Cache/Cleaner/Sweeps/Termination.antt =====
-- The sweeps end.
use fresh_core_native.Prelude.{ℕ, ◌<◌, Bytes, bytes, join, List, [], ◌∷◌, Option, none, some}
use fresh_core_native.Os.{Env}
use fresh_core_native.Sys.Finishes.{
  Finishes, Finishes-bind, Finishes-lift, Finishes-return, Finishes-if, finishes,
}
use fresh_core_native.Filesystem.Limits.{PathLimit}
use fresh_core_native.Cache.Cleaner.Termination.{remove_recursive_batched-Finishes}
use fresh_core_native.Cache.Cleaner.Sweeps.{
  paths_to_sweep, report_trim, native_fstrim, sweep_children, sweep_listed, sweep_paths,
  run_system_maintenance_sweeps,
}

module _ ⦃env : Env⦄ where
  report_trim-Finishes : (path : Bytes) (trimmed : Option ℕ) → Finishes (report_trim path trimmed)
  unfolding report_trim
  report_trim-Finishes path none = search finishes
  report_trim-Finishes path (some n) = search finishes

  native_fstrim-Finishes : (path : Bytes) → Finishes (native_fstrim path)
  unfolding native_fstrim
  native_fstrim-Finishes path = search (finishes, report_trim-Finishes) depth 20

module _ ⦃env : Env⦄ (limit : PathLimit env.open_dir) (fuel : ℕ) (enough : 4096 < fuel) where
  sweep_children-Finishes :
      (path : Bytes) (children : List Bytes) → Finishes (sweep_children fuel path children)
  unfolding sweep_children
  sweep_children-Finishes path [] = Finishes-return _
  sweep_children-Finishes path (child ∷ children) =
      Finishes-bind _ _
        (Finishes-if _ _ _ (Finishes-return _)
          (remove_recursive_batched-Finishes limit fuel enough (join path child)))
        λ _. sweep_children-Finishes path children

  sweep_listed-Finishes :
      (path : Bytes) (children : Option (List Bytes)) → Finishes (sweep_listed fuel path children)
  unfolding sweep_listed
  sweep_listed-Finishes path none = Finishes-return _
  sweep_listed-Finishes path (some children) = sweep_children-Finishes path children

  sweep_paths-Finishes : (paths : List Bytes) → Finishes (sweep_paths fuel paths)
  unfolding sweep_paths
  sweep_paths-Finishes [] = Finishes-lift _
  sweep_paths-Finishes (path ∷ paths) = Finishes-bind _ _ (Finishes-lift _) λ idle.
      Finishes-if _ _ _ (Finishes-lift _) (
        Finishes-bind _ _ (Finishes-lift _) λ children.
          Finishes-bind _ _ (sweep_listed-Finishes path children) λ _. sweep_paths-Finishes paths)

  pub run_system_maintenance_sweeps-Finishes : Finishes (run_system_maintenance_sweeps fuel)
  unfolding run_system_maintenance_sweeps
  run_system_maintenance_sweeps-Finishes = Finishes-bind _ _ (Finishes-lift _) λ _.
      Finishes-bind _ _ (native_fstrim-Finishes (bytes "/data")) λ _.
        Finishes-bind _ _ (native_fstrim-Finishes (bytes "/cache"))
          λ _. sweep_paths-Finishes paths_to_sweep
