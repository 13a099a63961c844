-- ===== src/Cache/Cleaner/Cooldown.antt =====
-- What a completed cleaning records, against the analysis that reads it.
use fresh_core_native.Prelude.{ℕ, ◌+◌, ◌%◌, ◌≡◌, [], ◌∷◌}
use fresh_core_native.CacheData.{CacheDirInfo, PackageState}
use fresh_core_native.Os.{Env, info, text}
use fresh_core_native.Diagnostics.{milliseconds}
use fresh_core_native.Sys.{Sys}
use fresh_core_native.Sys.Monad
use fresh_core_native.Sys.Fuel
use fresh_core_native.Sys.Logged.{Logged, Logged-IsPreorder}
use fresh_core_native.Logging.{log}
use fresh_core_native.StateStorage.{get_package_state}
use fresh_core_native.Cache.Cleaner.{record_cleanup}

-- What `after` must hold, from the package's state `before` and the time of the cleaning.
pub record IsCleaned (time : ℕ) (before after : PackageState) : Type 0 where
  pub last_cleanup_ms : after.last_cleanup_ms ≡ time
  pub cleanup_count : after.cleanup_count ≡ (before.cleanup_count + 1) % 4294967296
  pub last_size_bytes : after.last_size_bytes ≡ 0
  pub hash : after.hash ≡ before.hash
  pub last_scan_ms : after.last_scan_ms ≡ before.last_scan_ms
  pub growth : after.growth_rate_bytes_per_day ≡ before.growth_rate_bytes_per_day

module _ ⦃env : Env⦄ where
  -- The clock at the end of the cleaning.
  abbrev cleanup_time : CacheDirInfo → Sys → ℕ
  cleanup_time target s =
      milliseconds
        (env.realtime (log info "Completed clean of: %s" (text target.path ∷ []) s).1.calls)

  abbrev pub recorded : CacheDirInfo → Sys → PackageState
  recorded target s = (get_package_state target.pkg_name (record_cleanup target s).1).0
