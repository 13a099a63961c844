-- ===== src/Diagnostics/Accounts.antt =====
-- EndBatch counts the files that it is given.
use fresh_core_native.Prelude.{ℕ, ◌+◌, Bool, true, false, arith}
use fresh_core_native.Os.{Env}
use fresh_core_native.Sys.{Sys}
use fresh_core_native.Sys.Monad.{Runs, ◌>>=◌}
use fresh_core_native.Sys.Monad
use fresh_core_native.Sys.Still.{Anywhere, Still, Still-IsPreorder, stills}
use fresh_core_native.Sys.Accounts.{Counts, Counts-Still, Counts-trans}
use fresh_core_native.Logging.Calls.{log-Still}
use fresh_core_native.Diagnostics.{
  add_totals, get_monotonic_time_ms, check_self_limits, judge_limit, warn_if_long, end_batch,
}

add_totals-Counts :
    (m files bytes_freed : ℕ) (s : Sys) → Counts (m + files) m s (add_totals files bytes_freed s)
add_totals-Counts m files bytes_freed s = record { bound = omega arith }

module _ ⦃env : Env⦄ where
  get_monotonic_time_ms-Still : Runs (Still Anywhere) get_monotonic_time_ms
  unfolding get_monotonic_time_ms
  get_monotonic_time_ms-Still = search stills

  warn_if_long-Still : (duration : ℕ) → Runs (Still Anywhere) (warn_if_long duration)
  unfolding warn_if_long
  warn_if_long-Still duration = search (stills, log-Still) depth 20

  check_self_limits-Still : Runs (Still Anywhere) check_self_limits
  unfolding check_self_limits
  check_self_limits-Still = search (stills, log-Still) depth 20

  judge_limit-Still : (b : Bool) → Runs (Still Anywhere) (judge_limit b)
  unfolding judge_limit
  judge_limit-Still true = search (stills, log-Still) depth 20
  judge_limit-Still false = check_self_limits-Still

  pub end_batch-Counts :
      (m files bytes_freed : ℕ) (s : Sys) → Counts (m + files) m s (end_batch files bytes_freed s).1
  unfolding end_batch ◌>>=◌ Monad.perform Monad.gets Monad.modify get_monotonic_time_ms
  end_batch-Counts m files bytes_freed s =
      Counts-trans (m + files) (m + files) m (Counts-Still _ (get_monotonic_time_ms-Still.at s)) (
        Counts-trans (m + files) m m (add_totals-Counts m files bytes_freed _) (
          Counts-trans m m m (Counts-Still m ((warn_if_long-Still _).at _))
            (Counts-Still m ((judge_limit-Still _).at _))))
