-- ===== src/Monitors.antt =====
-- storage/storage_monitor.cpp, memory/memory_monitor.cpp and memory/zram_monitor.cpp, and the stub of
-- android/binder_interface.cpp: readers that the daemon does not call. A double is its bits.
pub mod Reads
use fresh_core_native.Prelude.{
  ℕ, ◌*◌, Bytes, bytes, starts_with, u64, Bool, true, Option, none, some, List, [], ◌∷◌, ltb,
  if◌then◌else◌,
}
use fresh_core_native.Os.{Env, Call, Vfs}
use fresh_core_native.Config.{lines}
use fresh_core_native.Streams.{stream_u64}
use fresh_core_native.Sys.Monad.{St, pure, perform, ◌>>=◌, ◌>>◌}

pub record StorageStats : Type 0 where
  pub total_bytes : ℕ  -- unsigned long long
  pub free_bytes : ℕ  -- unsigned long long
  pub free_percent : ℕ  -- double

abbrev no_stats : StorageStats
no_stats = record { total_bytes = 0; free_bytes = 0; free_percent = 0 }

pub record ZramStats : Type 0 where
  pub mem_used_total : ℕ  -- uint64_t
  pub orig_data_size : ℕ  -- uint64_t

abbrev no_zram : ZramStats
no_zram = record { mem_used_total = 0; orig_data_size = 0 }

abbrev pub meminfo_path : Bytes
meminfo_path = bytes "/proc/meminfo"

abbrev pub mm_stat_path : Bytes
mm_stat_path = bytes "/sys/block/zram0/mm_stat"

-- mm_stat >> orig_data >> compr_data >> mem_used, an extraction after another.
zram_with_used : ℕ → Option (ℕ × Bytes) → ZramStats
zram_with_used orig_data none = no_zram
zram_with_used orig_data (some (mem_used, _)) = record {
  mem_used_total = mem_used;
  orig_data_size = orig_data;
}

zram_with_compr : ℕ → Option (ℕ × Bytes) → ZramStats
unfolding zram_with_used
zram_with_compr orig_data none = no_zram
zram_with_compr orig_data (some (_, rest)) = zram_with_used orig_data (stream_u64 rest)

zram_with_orig : Option (ℕ × Bytes) → ZramStats
unfolding zram_with_compr
zram_with_orig none = no_zram
zram_with_orig (some (orig_data, rest)) = zram_with_compr orig_data (stream_u64 rest)

unfoldable pub zram_of : Option Bytes → ZramStats
unfolding zram_with_orig
zram_of none = no_zram
zram_of (some content) = zram_with_orig (stream_u64 content)

module _ ⦃env : Env⦄ where
  -- The statistics where statvfs succeeds.
  unfoldable pub stats_of : Vfs → StorageStats
  stats_of vfs =
      let total = u64 (vfs.f_blocks * vfs.f_frsize) in
      let free = u64 (vfs.f_bavail * vfs.f_frsize) in
      record {
        total_bytes = total;
        free_bytes = free;
        free_percent = if ltb 0 total then env.percent free total else 0;
      }

  stats_or_none : Option Vfs → StorageStats
  unfolding stats_of
  stats_or_none none = no_stats
  stats_or_none (some vfs) = stats_of vfs

  unfoldable pub get_storage_stats : Bytes → St StorageStats
  unfolding stats_or_none
  get_storage_stats path = do
    vfs ← perform (Call.statvfs path) (λ h. env.statvfs h path)
    pure (stats_or_none vfs)

  -- The line's number, where it begins with the name and sscanf reads it.
  unfoldable pub available_in : Bytes → Option ℕ
  unfolding bytes starts_with
  available_in line =
      if starts_with (bytes "MemAvailable:") line
      then env.scan_u64 "MemAvailable: %llu kB" line
      else none

  -- The loop over the lines returns from the first that gives a number.
  unfoldable pub available_kb : List Bytes → ℕ
  unfolding available_in
  available_kb [] = 0
  available_kb (line ∷ rest) =
      let others = available_kb rest in elim (available_in line) [ some kb ↦ kb | none ↦ others ]

  available_of : Option Bytes → ℕ
  unfolding available_kb
  available_of none = 0
  available_of (some content) = available_kb (lines content)

  unfoldable pub get_available_memory_kb : St ℕ
  unfolding available_of
  get_available_memory_kb = do
    meminfo ← perform (Call.read_file meminfo_path) (λ h. env.file h meminfo_path)
    pure (available_of meminfo)

  unfoldable pub get_zram_stats : St ZramStats
  unfolding zram_of
  get_zram_stats = do
    mm_stat ← perform (Call.read_file mm_stat_path) (λ h. env.file h mm_stat_path)
    pure (zram_of mm_stat)

unfoldable pub init_binder : St (Unit {0})
init_binder = pure tt

unfoldable pub is_device_interactive : St Bool
is_device_interactive = pure true
