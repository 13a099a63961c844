-- ===== src/Filesystem/Limits.antt =====
-- PATH_MAX: how deep a directory can be read by absolute paths.
use fresh_core_native.Prelude.{◌≤◌, ◌≡◌, Bytes, Bool, false, length, none}
use fresh_core_native.Os.{Env, History}
use fresh_core_native.Sys.{Sys}
use fresh_core_native.Sys.Monad.{◌>>=◌}
use fresh_core_native.Filesystem.{get_directory_children}

-- open(2) refuses a path of PATH_MAX bytes or more (ENAMETOOLONG).
pub record PathLimit (open_dir : History → Bytes → Bool) : Type 0 where
  pub too_long : (h : History) (path : Bytes) → 4096 ≤ length path → open_dir h path ≡ false

module _ ⦃env : Env⦄ where
  pub get_directory_children_too_long :
      PathLimit env.open_dir
      → (path : Bytes) → 4096 ≤ length path
      → (s : Sys) → (get_directory_children path s).0 ≡ none
  unfolding get_directory_children ◌>>=◌
  get_directory_children_too_long limit path long s = rw (limit.too_long s.calls path long)
