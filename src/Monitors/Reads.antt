-- ===== src/Monitors/Reads.antt =====
-- The values that the storage and memory monitors read.
use native.Mathlib.Nat.{mul-le-mul_right}
use fresh_core_native.Prelude.{◌*◌, ◌≤◌, ◌<◌, ◌≡◌, arith}
use fresh_core_native.Os.{Env, Vfs}
use fresh_core_native.Monitors.{stats_of}

module _ ⦃env : Env⦄ where
  -- Where statvfs gives no more available blocks than blocks and the file system has less than 2^64
  -- bytes, the monitor's numbers are the products, without wrapping, and the free bytes are at most
  -- the total.
  stats_of_exact :
      (vfs : Vfs)
      → vfs.f_bavail ≤ vfs.f_blocks
      → vfs.f_blocks * vfs.f_frsize < 18446744073709551616
      → ((stats_of vfs).total_bytes ≡ vfs.f_blocks * vfs.f_frsize)
        × ((stats_of vfs).free_bytes ≡ vfs.f_bavail * vfs.f_frsize)
        × ((stats_of vfs).free_bytes ≤ (stats_of vfs).total_bytes)
  unfolding stats_of
  stats_of_exact vfs h fits =
      let l : vfs.f_bavail * vfs.f_frsize ≤ vfs.f_blocks * vfs.f_frsize =
        mul-le-mul_right vfs.f_frsize h in
      (omega (arith, fits), omega (arith, fits, l), omega (arith, fits, l))
