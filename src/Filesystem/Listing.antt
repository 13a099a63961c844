-- ===== src/Filesystem/Listing.antt =====
-- What `GetDirectoryChildren` of storage/filesystem.cpp gives for a directory that stays as it is.
use fresh_core_native.Prelude.{◌≡◌, refl, Bytes, true, false, none, some, List}
use fresh_core_native.Os.{Env, History}
use fresh_core_native.Sys.{Sys}
use fresh_core_native.Sys.Monad.{St, pure, perform, ◌>>=◌}
use fresh_core_native.Sys.Monad
use fresh_core_native.Filesystem.{children_of, read_children, get_directory_children}

module _ ⦃env : Env⦄ where
  -- The directory can be opened and lists the names, besides "." and "..".
  pub record Lists (path : Bytes) (ns : List Bytes) : Type 0 where
    pub opens : (h : History) → env.open_dir h path ≡ true
    pub reads : (h : History) → env.fdopendir h path ≡ true
    pub lists : (h : History) → children_of (env.entries h path) ≡ ns

  pub get_directory_children-Lists :
      (path : Bytes) (ns : List Bytes) (s : Sys)
      → Lists path ns
      → (get_directory_children path s).0 ≡ some ns
  unfolding get_directory_children read_children ◌>>=◌ Monad.perform pure
  get_directory_children-Lists path ns s h = rw (h.opens s.calls, h.reads _, h.lists _) refl

  pub get_directory_children_closed :
      (path : Bytes) (s : Sys)
      → ((h : History) → env.open_dir h path ≡ false)
      → (get_directory_children path s).0 ≡ none
  unfolding get_directory_children read_children ◌>>=◌ Monad.perform pure
  get_directory_children_closed path s h = rw (h s.calls) refl
