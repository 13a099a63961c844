-- ===== src/Filesystem/Accounts.antt =====
-- SafeRemove counts no file that it has not tried to remove.
use fresh_core_native.Prelude.{
  ℕ, ◌+◌, ◌≡◌, refl, Bytes, Bool, true, false, Option, none, some, arith, if◌then◌else◌,
}
use fresh_core_native.Os.{Env, Stat, Call, History, rmdir, unlink}
use fresh_core_native.Sys.{Sys}
use fresh_core_native.Sys.Monad.{perform, ◌>>=◌}
use fresh_core_native.Sys.Monad
use fresh_core_native.Sys.Still.{Anywhere}
use fresh_core_native.Sys.Accounts.{removal, removals, Counts, Counts-Still, Counts-trans}
use fresh_core_native.Filesystem.{lstat, remove_stated, safe_remove}
use fresh_core_native.Filesystem.Calls.{lstat-Still}

module _ ⦃env : Env⦄ where
  perform-Counts :
      (m : ℕ) (c : Call) (answer : History → Bool) (s : Sys)
      → removal c ≡ 1
      → Counts m (if (perform c answer s).0 then m + 1 else m) s (perform c answer s).1
  unfolding perform removals
  perform-Counts m c answer s h = record { bound = ground (arith, h) }

  removed-Counts :
      (m : ℕ) (path : Bytes) (is_dir : Bool) (s : Sys)
      → let remove =
          if is_dir
          then perform (rmdir path) (λ h. env.rmdir h path)
          else perform (unlink path) (λ h. env.unlink h path) in
        Counts m (if (remove s).0 then m + 1 else m) s (remove s).1
  removed-Counts m path true s = perform-Counts m (rmdir path) _ s refl
  removed-Counts m path false s = perform-Counts m (unlink path) _ s refl

  remove_stated-Counts :
      (m : ℕ) (path : Bytes) (st : Option Stat) (s : Sys)
      → Counts m (if (remove_stated path st s).0 then m + 1 else m) s (remove_stated path st s).1
  unfolding remove_stated Monad.pure
  remove_stated-Counts m path none s = record { bound = omega arith }
  remove_stated-Counts m path (some st) s = removed-Counts m path st.is_dir s

  -- A file that SafeRemove has removed is pending.
  pub safe_remove-Counts :
      (m : ℕ) (path : Bytes) (s : Sys)
      → Counts m (if (safe_remove path s).0 then m + 1 else m) s (safe_remove path s).1
  unfolding safe_remove ◌>>=◌
  safe_remove-Counts m path s =
      Counts-trans m m _ (Counts-Still {P = Anywhere} m ((lstat-Still path).at s))
        (remove_stated-Counts m path (lstat path s).0 (lstat path s).1)
