-- ===== src/Cache/Analyzer/Roots.antt =====
-- Every target of the analysis is one of the directories that were scanned.
use fresh_core_native.Prelude.{
  All-Permᴰ, ℕ, ◌≡◌, refl, sym, subst, Bool, true, false, List, [], ◌∷◌, All,
}
use fresh_core_native.CacheData.{CacheDirInfo, PackageState, MaintenanceTarget}
use fresh_core_native.Os.{Env}
use fresh_core_native.Sys.Fuel.{Returns, Returns-return, Returns-if, Returns-bind, Returns-any}
use fresh_core_native.Cache.Roots.{IsRoot, DirIsRoot, TargetIsRoot}
use fresh_core_native.Cache.Scanner.{calculate_cache_size}
use fresh_core_native.Cache.Analyzer.Order.{Sorts, is_before-IsStrictWeak}
use fresh_core_native.Cache.Analyzer.{is_before, push_if, measure_dir, analyze_dirs, analyze_caches}

push_if-roots :
    (kept : Bool) (target : MaintenanceTarget) (targets : List MaintenanceTarget)
    → TargetIsRoot target
    → All TargetIsRoot targets
    → All TargetIsRoot (push_if kept target targets)
push_if-roots true target targets h hs = (h, hs)
push_if-roots false target targets h hs = hs

module _ ⦃env : Env⦄ where
  calculate_cache_size-path :
      (fuel : ℕ) (dir : CacheDirInfo)
      → Returns (λ measured. measured.path ≡ dir.path) (calculate_cache_size fuel dir)
  unfolding calculate_cache_size
  calculate_cache_size-path fuel dir =
      Returns-if _ _ _ (Returns-bind _ _ (Returns-any _) (λ size _. Returns-return _ refl))
        (Returns-return _ refl)

  measure_dir-roots :
      (fuel now : ℕ) (dir : CacheDirInfo) (state : PackageState)
      → DirIsRoot dir
      → Returns (λ found. TargetIsRoot found.1) (measure_dir fuel now dir state)
  unfolding measure_dir
  measure_dir-roots fuel now dir state r =
      Returns-bind _ _ (calculate_cache_size-path fuel dir) λ measured same.
        Returns-bind _ _ (Returns-any _) λ _ _.
          Returns-bind _ _ (Returns-any _) λ clean _. Returns-return _ (subst IsRoot (sym same) r)

  analyze_dirs-roots :
      (fuel now : ℕ) (dirs : List CacheDirInfo)
      → All DirIsRoot dirs
      → Returns (All TargetIsRoot) (analyze_dirs fuel now dirs)
  unfolding analyze_dirs
  analyze_dirs-roots fuel now [] r = Returns-return _ tt
  analyze_dirs-roots fuel now (dir ∷ dirs) r = Returns-bind _ _ (Returns-any _) λ state _.
      Returns-if _ _ _ (analyze_dirs-roots fuel now dirs r.1) (
        Returns-bind _ _ (measure_dir-roots fuel now dir state r.0) λ found f.
          Returns-bind _ _ (analyze_dirs-roots fuel now dirs r.1)
            λ targets ts. Returns-return _ (push_if-roots found.0 found.1 targets f ts))

  pub analyze_caches-roots :
      Sorts env.sort
      → (fuel : ℕ) (dirs : List CacheDirInfo) → All DirIsRoot dirs
      → Returns (All TargetIsRoot) (analyze_caches fuel dirs)
  unfolding analyze_caches
  analyze_caches-roots sorts fuel dirs r = Returns-bind _ _ (Returns-any _) λ now _.
      Returns-bind _ _ (analyze_dirs-roots fuel now dirs r) λ targets ts.
        Returns-bind _ _ (Returns-any _) λ _ _.
          Returns-return _
            (All-Permᴰ TargetIsRoot (sorts.permutes is_before is_before-IsStrictWeak targets) ts)
