-- ===== src/CacheData.antt =====
-- The structs of cache/state_storage.hpp, cache/package_scanner.hpp, cache/cache_analyzer.hpp and
-- android/package_manager.hpp, and the std::unordered_map of package states.
use fresh_core_native.Prelude.{
  ℕ, Bytes, ℤ, Bool, Option, none, some, List, [], ◌∷◌, ◌==◌, if◌then◌else◌,
}

pub record PackageState : Type 0 where
  pub hash : ℕ  -- uint32_t
  pub last_scan_ms : ℕ  -- uint64_t
  pub last_cleanup_ms : ℕ  -- uint64_t
  pub last_size_bytes : ℕ  -- uint64_t
  pub cleanup_count : ℕ  -- uint32_t
  pub growth_rate_bytes_per_day : ℕ  -- uint32_t

pub record PackageInfo : Type 0 where
  pub name : Bytes
  pub data_dir : Bytes
  pub uid : ℤ
  pub is_system : Bool

pub record CacheDirInfo : Type 0 where
  pub path : Bytes
  pub pkg_name : Bytes
  pub size_bytes : ℕ  -- unsigned long long
  pub size_calculated : Bool

pub record MaintenanceTarget : Type 0 where
  pub cache_dir : CacheDirInfo
  pub priority : ℕ

-- std::unordered_map<uint32_t, PackageState>, the entries in some order.
abbrev pub States : Type 0
States = List (ℕ × PackageState)

-- states.find(k)
unfoldable pub find : ℕ → States → Option PackageState
find k [] = none
find k ((j, v) ∷ m) = if j == k then some v else find k m

-- states[k] = v
unfoldable pub assign : ℕ → PackageState → States → States
assign k v [] = (k, v) ∷ []
assign k v ((j, w) ∷ m) = if j == k then (k, v) ∷ m else (j, w) ∷ assign k v m
