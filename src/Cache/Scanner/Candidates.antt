-- ===== src/Cache/Scanner/Candidates.antt =====
-- cache/package_scanner.cpp: `ScanPackageCache`, the first stage.
pub mod Calls
pub mod Roots
use fresh_core_native.Prelude.{
  ℕ, Bytes, bytes, starts_with, Bool, true, false, not, ◌&&◌, Option, none, some, List, [], ◌∷◌,
  ◌++◌, if◌then◌else◌,
}
use fresh_core_native.CacheData.{PackageInfo, CacheDirInfo}
use fresh_core_native.Config.{Configuration}
use fresh_core_native.Os.{Env, Stat}
use fresh_core_native.Sys.Monad.{St, pure, gets, ◌>>=◌, ◌>>◌}
use fresh_core_native.Filesystem.{lstat}
use fresh_core_native.Cache.Policy.{is_valid_cache_path}

abbrev pub external_root : Bytes
external_root = bytes "/sdcard/Android/data/"

abbrev pub cache_of : Bytes → Bytes
cache_of data_dir = data_dir ++ bytes "/cache"

abbrev pub code_cache_of : Bytes → Bytes
code_cache_of data_dir = data_dir ++ bytes "/code_cache"

abbrev pub external_cache_of : Bytes → Bytes
external_cache_of name = external_root ++ (name ++ bytes "/cache")

unfoldable pub candidates : Configuration → PackageInfo → List Bytes
candidates c pkg =
    cache_of pkg.data_dir
    ∷ code_cache_of pkg.data_dir
    ∷ (if c.include_external_cache then external_cache_of pkg.name ∷ [] else [])

abbrev is_existing_dir : Option Stat → Bool
is_existing_dir none = false
is_existing_dir (some st) = st.is_dir

abbrev pub unsized : Bytes → Bytes → CacheDirInfo
unsized path pkg_name = record {
  path = path;
  pkg_name = pkg_name;
  size_bytes = 0;
  size_calculated = false;
}

abbrev push : Bool → CacheDirInfo → List CacheDirInfo → List CacheDirInfo
push true dir dirs = dir ∷ dirs
push false dir dirs = dirs

module _ ⦃env : Env⦄ where
  accepts : Bytes → Bytes → St Bool
  accepts cand data_dir = do
    valid ← is_valid_cache_path cand data_dir
    if valid then pure true else pure (starts_with external_root cand)

  -- Whether the candidate becomes a cache directory.
  keeps : Bytes → Bytes → St Bool
  unfolding accepts
  keeps cand data_dir = do
    accepted ← accepts cand data_dir
    if accepted then (do st ← lstat cand; pure (is_existing_dir st)) else pure false

  scan_candidates : PackageInfo → List Bytes → St (List CacheDirInfo)
  unfolding keeps
  scan_candidates pkg [] = pure []
  scan_candidates pkg (cand ∷ rest) = do
    kept ← keeps cand pkg.data_dir
    dirs ← scan_candidates pkg rest
    pure (push kept (unsized cand pkg.name) dirs)

  unfoldable pub scan_package_cache : PackageInfo → St (List CacheDirInfo)
  unfolding scan_candidates candidates
  scan_package_cache pkg = do
    c ← gets (λ s. s.config)
    if pkg.is_system && not c.include_system_apps
        then pure []
        else if not pkg.is_system && not c.include_user_apps
        then pure []
        else scan_candidates pkg (candidates c pkg)
