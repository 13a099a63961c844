-- ===== src/Cache/Scanner/Candidates/Roots.antt =====
-- Every cache directory that a scan finds is a root.
use fresh_core_native.Prelude.{Bytes, Bool, true, false, not, ◌&&◌, List, [], ◌∷◌, All}
use fresh_core_native.CacheData.{PackageInfo, CacheDirInfo}
use fresh_core_native.Os.{Env}
use fresh_core_native.Sys.{Sys}
use fresh_core_native.Sys.Monad.{Yields, Yields-pure, Yields-if, Yields-bind, ◌>>=◌}
use fresh_core_native.Cache.Roots.{IsRoot, DirIsRoot, candidates-IsRoot}
use fresh_core_native.Cache.Scanner.Candidates.{
  unsized, push, scan_candidates, scan_package_cache, candidates,
}

push-roots :
    (kept : Bool) (dir : CacheDirInfo) (dirs : List CacheDirInfo)
    → DirIsRoot dir
    → All DirIsRoot dirs
    → All DirIsRoot (push kept dir dirs)
push-roots true dir dirs h hs = (h, hs)
push-roots false dir dirs h hs = hs

module _ ⦃env : Env⦄ where
  found-roots :
      (pkg : PackageInfo) (cands : List Bytes) (s : Sys)
      → All IsRoot cands
      → All DirIsRoot (scan_candidates pkg cands s).0
  unfolding scan_candidates ◌>>=◌
  found-roots pkg [] s h = tt
  found-roots pkg (cand ∷ cands) s h =
      push-roots _ (unsized cand pkg.name) _ h.0 (found-roots pkg cands _ h.1)

  scan_candidates-roots :
      (pkg : PackageInfo) (cands : List Bytes)
      → All IsRoot cands
      → Yields (All DirIsRoot) (scan_candidates pkg cands)
  scan_candidates-roots pkg cands h = record { at = λ s. found-roots pkg cands s h }

  pub scan_package_cache-roots :
      (pkg : PackageInfo) → Yields (All DirIsRoot) (scan_package_cache pkg)
  unfolding scan_package_cache
  scan_package_cache-roots pkg = Yields-bind _ _ λ c.
      Yields-if (pkg.is_system && not c.include_system_apps) _ _ (Yields-pure [] tt) (
        Yields-if (not pkg.is_system && not c.include_user_apps) _ _ (Yields-pure [] tt)
          (scan_candidates-roots pkg (candidates c pkg) (candidates-IsRoot c pkg)))
