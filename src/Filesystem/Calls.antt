-- ===== src/Filesystem/Calls.antt =====
-- Reading directories removes no file; SafeRemove removes the path that it is given, and no other.
use fresh_core_native.Prelude.{Bytes, Bool, true, false, Option, none, some}
use fresh_core_native.Os.{Env, Stat}
use fresh_core_native.Sys.Monad.{Runs}
use fresh_core_native.Sys.Still.{Still, Still-IsPreorder, stills, Runs-Frame}
use fresh_core_native.Sys.Frame.{Frame}
use fresh_core_native.Filesystem.{
  read_children, get_directory_children, lstat, remove_stated, safe_remove,
}

module _ ⦃env : Env⦄ {P : Bytes → Type 0} where
  read_children-Still : (path : Bytes) (dir : Bool) → Runs (Still P) (read_children path dir)
  unfolding read_children
  read_children-Still path true = search stills depth 20
  read_children-Still path false = search stills depth 20

  pub get_directory_children-Still : (path : Bytes) → Runs (Still P) (get_directory_children path)
  unfolding get_directory_children
  get_directory_children-Still path = search (stills, read_children-Still) depth 20

  pub lstat-Still : (path : Bytes) → Runs (Still P) (lstat path)
  unfolding lstat
  lstat-Still path = search stills

  remove_stated-Still :
      (path : Bytes) (st : Option Stat) → P path → Runs (Still P) (remove_stated path st)
  unfolding remove_stated
  remove_stated-Still path none p = search stills
  remove_stated-Still path (some st) p = search stills depth 20

  safe_remove-Still : (path : Bytes) → P path → Runs (Still P) (safe_remove path)
  unfolding safe_remove
  safe_remove-Still path p = search (stills, remove_stated-Still) depth 20

  pub get_directory_children-Frame : (path : Bytes) → Runs (Frame P) (get_directory_children path)
  get_directory_children-Frame path = Runs-Frame (get_directory_children-Still path)

  pub lstat-Frame : (path : Bytes) → Runs (Frame P) (lstat path)
  lstat-Frame path = Runs-Frame (lstat-Still path)

  pub safe_remove-Frame : (path : Bytes) → P path → Runs (Frame P) (safe_remove path)
  safe_remove-Frame path p = Runs-Frame (safe_remove-Still path p)
