-- ===== src/Diagnostics.antt =====
-- diagnostics/diagnostics.cpp: batches and limits.
pub mod Calls
pub mod Accounts
pub mod Budget
use fresh_core_native.Prelude.{
  ℕ, ◌+◌, ◌*◌, ◌/◌, Bytes, bytes, int_to_u64, u64, sub64, Bool, true, false, Option, none, some,
  List, [], ◌∷◌, ltb, if◌then◌else◌,
}
use fresh_core_native.Os.{Env, Call, Timespec, info, warning, error, number}
use fresh_core_native.Streams.{stream_u64}
use fresh_core_native.Sys.{Sys, Totals}
use fresh_core_native.Sys.Monad.{St, pure, gets, modify, perform, ◌>>=◌, ◌>>◌}
use fresh_core_native.Logging.{log}

-- (uint64_t)ts.tv_sec * 1000ULL + ts.tv_nsec / 1000000ULL
abbrev pub milliseconds : Timespec → ℕ
milliseconds ts = u64 (ts.tv_sec * 1000 + ts.tv_nsec / 1000000)

pub record ResourceUsage : Type 0 where
  pub cpu_time_ms : ℕ
  pub rss_kb : ℕ

abbrev statm_path : Bytes
statm_path = bytes "/proc/self/statm"

abbrev milliseconds_or_zero : Option Timespec → ℕ
milliseconds_or_zero none = 0
milliseconds_or_zero (some ts) = milliseconds ts

abbrev pub add_totals : ℕ → ℕ → Sys → Sys
add_totals files bytes_freed s = record s {
  totals = record s.totals {
    files_processed = s.totals.files_processed + files;
    bytes_freed = u64 (s.totals.bytes_freed + bytes_freed);
  };
}

abbrev set_batch_start : ℕ → Sys → Sys
set_batch_start now s = record s { totals = record s.totals { batch_start_time_ms = now } }

-- (uint64_t)max_cleanup_mb_per_run * 1024 * 1024
abbrev pub max_cleanup_bytes : Sys → ℕ
max_cleanup_bytes s = u64 (int_to_u64 s.config.max_cleanup_mb_per_run * 1048576)

module _ ⦃env : Env⦄ where
  get_monotonic_time_ms : St ℕ
  get_monotonic_time_ms = perform Call.clock_monotonic (λ h. milliseconds (env.monotonic h))

  -- statm >> size >> resident, and the resident set in KB; 0 where either cannot be read.
  rss_of_resident : Option (ℕ × Bytes) → ℕ
  rss_of_resident none = 0
  rss_of_resident (some (resident, _)) = u64 (resident * env.page_size) / 1024

  rss_of_size : Option (ℕ × Bytes) → ℕ
  unfolding rss_of_resident
  rss_of_size none = 0
  rss_of_size (some (_, rest)) = rss_of_resident (stream_u64 rest)

  rss_of : Option Bytes → ℕ
  unfolding rss_of_size
  rss_of none = 0
  rss_of (some content) = rss_of_size (stream_u64 content)

  unfoldable pub get_current_usage : St ResourceUsage
  unfolding rss_of
  get_current_usage = do
    cpu ← perform Call.clock_cputime env.cputime
    statm ← perform (Call.read_file statm_path) (λ h. env.file h statm_path)
    pure (record { cpu_time_ms = milliseconds_or_zero cpu; rss_kb = rss_of statm })

  unfoldable pub check_self_limits : St Bool
  unfolding get_current_usage
  check_self_limits = do
    usage ← get_current_usage
    if ltb 51200 usage.rss_kb
        then (do
          log error "Self-Limit exceeded: RSS is %llu KB. Aborting." (number usage.rss_kb ∷ [])
          pure false)
        else pure true

  unfoldable pub start_batch : St (Unit {0})
  unfolding get_monotonic_time_ms
  start_batch = do now ← get_monotonic_time_ms; modify (set_batch_start now)

  warn_if_long : ℕ → St (Unit {0})
  warn_if_long duration = do
    s ← gets (λ s. s)
    if ltb (int_to_u64 s.config.max_batch_time_ms) duration
        then log warning "Batch took too long: %llu ms" (number duration ∷ [])
        else pure tt

  -- What follows the test of the limit.
  judge_limit : Bool → St Bool
  unfolding check_self_limits
  judge_limit true = do log info "Reached max cleanup MB for this run." []; pure false
  judge_limit false = check_self_limits

  unfoldable pub end_batch : ℕ → ℕ → St Bool
  unfolding warn_if_long get_monotonic_time_ms judge_limit
  end_batch files_processed bytes_freed = do
    end_time ← get_monotonic_time_ms
    start ← gets (λ s. s.totals.batch_start_time_ms)
    modify (add_totals files_processed bytes_freed)
    warn_if_long (sub64 end_time start)
    s ← gets (λ s. s)
    judge_limit (ltb (max_cleanup_bytes s) s.totals.bytes_freed)
