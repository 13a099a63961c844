-- ===== src/Cache/Policy.antt =====
-- cache/cache_policy.cpp
pub mod Calls
pub mod Accepted
use fresh_core_native.Prelude.{
  ℕ, ◌*◌, Bytes, bytes, bytes_eq, slash, is_empty, int_to_u64, u64, Bool, true, false, not, ◌||◌,
  Option, none, some, [], ◌∷◌, leb, ◌==◌, if◌then◌else◌,
}
use fresh_core_native.Os.{Env}
use fresh_core_native.Sys.{Sys}
use fresh_core_native.Sys.Monad.{St, pure, gets, ◌>>=◌, ◌>>◌}
use fresh_core_native.Filesystem.{get_canonical_path, is_path_under_root}

-- canon.substr(canon.find_last_of('/') + 1): `none` where there is no slash.
unfoldable pub after_last_slash : Bytes → Option Bytes
after_last_slash [] = none
after_last_slash (c ∷ s) = elim (after_last_slash s) [
  | some name ↦ some name
  | none ↦ if c == slash then some s else none
]

unfoldable pub is_cache_name : Option Bytes → Bool
unfolding bytes_eq bytes
is_cache_name none = false
is_cache_name (some dir_name) =
    bytes_eq dir_name (bytes "cache") || bytes_eq dir_name (bytes "code_cache")

-- (unsigned long long)cache_threshold_mb * 1024 * 1024
abbrev pub threshold_bytes : Sys → ℕ
threshold_bytes s = u64 (int_to_u64 s.config.cache_threshold_mb * 1048576)

module _ ⦃env : Env⦄ where
  unfoldable pub is_valid_cache_path : Bytes → Bytes → St Bool
  unfolding is_path_under_root get_canonical_path is_cache_name after_last_slash
  is_valid_cache_path path package_data_dir = do
    under ← is_path_under_root path package_data_dir
    if not under then pure false else (do
      canon ← get_canonical_path path
      if is_empty canon then pure false else pure (is_cache_name (after_last_slash canon)))

  unfoldable pub should_clean_cache : ℕ → St Bool
  should_clean_cache cache_size_bytes = gets (λ s. leb (threshold_bytes s) cache_size_bytes)
