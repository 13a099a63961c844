-- ===== src/Filesystem.antt =====
-- storage/filesystem.cpp
pub mod Calls
pub mod Accounts
pub mod Limits
pub mod Under
pub mod Listing
use fresh_core_native.Prelude.{
  ℕ, Bytes, bytes, bytes_eq, slash, is_empty, starts_with, Bool, true, false, not, ◌&&◌, ◌||◌,
  Option, none, some, List, [], ◌∷◌, ltb, ◌==◌, length, drop, if◌then◌else◌,
}
use fresh_core_native.Os.{Env, Stat, Call}
use fresh_core_native.Sys.Monad.{St, pure, perform, ◌>>=◌, ◌>>◌}

-- The names other than "." and "..".
unfoldable pub children_of : List Bytes → List Bytes
children_of [] = []
children_of (name ∷ names) =
    let rest = children_of names in
    if not (bytes_eq name (bytes ".")) && not (bytes_eq name (bytes ".."))
    then name ∷ rest
    else rest

-- canon_path[n], where n is a position in the string
abbrev byte_at : ℕ → Bytes → ℕ → Bool
byte_at n s c = elim (drop n s) [ [] ↦ false | x ∷ _ ↦ x == c ]

-- The comparison that `IsPathUnderRoot` makes of two canonical paths.
unfoldable pub is_under : Bytes → Bytes → Bool
unfolding starts_with
is_under canon_path canon_root =
    if is_empty canon_path || is_empty canon_root
    then false
    else ltb (length canon_root) (length canon_path)
      && starts_with canon_root canon_path
      && byte_at (length canon_root) canon_path slash

abbrev or_empty : Option Bytes → Bytes
or_empty none = []
or_empty (some path) = path

module _ ⦃env : Env⦄ where
  -- The empty string where realpath fails.
  unfoldable pub get_canonical_path : Bytes → St Bytes
  get_canonical_path path = do
    resolved ← perform (Call.realpath path) (λ h. env.realpath h path)
    pure (or_empty resolved)

  read_children : Bytes → Bool → St (Option (List Bytes))
  read_children path false = do perform (Call.close path) (λ h. tt); pure none
  read_children path true = do
    names ← perform (Call.readdir path) (λ h. env.entries h path)
    perform (Call.closedir path) (λ h. tt)
    pure (some (children_of names))

  -- `none` is the result false.
  unfoldable pub get_directory_children : Bytes → St (Option (List Bytes))
  unfolding read_children
  get_directory_children path = do
    opened ← perform (Call.open_dir path) (λ h. env.open_dir h path)
    if opened
        then (do
          dir ← perform (Call.fdopendir path) (λ h. env.fdopendir h path)
          read_children path dir)
        else pure none

  unfoldable pub lstat : Bytes → St (Option Stat)
  lstat path = perform (Call.lstat path) (λ h. env.lstat h path)

  remove_stated : Bytes → Option Stat → St Bool
  remove_stated path none = pure false
  remove_stated path (some st) =
      if st.is_dir
      then perform (Call.rmdir path) (λ h. env.rmdir h path)
      else perform (Call.unlink path) (λ h. env.unlink h path)

  unfoldable pub safe_remove : Bytes → St Bool
  unfolding remove_stated lstat
  safe_remove path = do st ← lstat path; remove_stated path st

  unfoldable pub is_path_under_root : Bytes → Bytes → St Bool
  unfolding get_canonical_path is_under
  is_path_under_root path root = do
    canon_path ← get_canonical_path path
    canon_root ← get_canonical_path root
    pure (is_under canon_path canon_root)
