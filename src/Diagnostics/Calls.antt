-- ===== src/Diagnostics/Calls.antt =====
-- The batches remove no file and leave the configuration and the engine alone.
use fresh_core_native.Prelude.{ℕ, Bytes, Bool, true, false}
use fresh_core_native.Os.{Env}
use fresh_core_native.Sys.Monad.{Runs}
use fresh_core_native.Sys.Frame.{Frame, Frame-IsPreorder, frames}
use fresh_core_native.Sys.Still.{Still, Still-IsPreorder, stills, Runs-Frame}
use fresh_core_native.Logging.Calls.{log-Frame}
use fresh_core_native.Diagnostics.{start_batch, check_self_limits, judge_limit, end_batch}

module _ ⦃env : Env⦄ {P : Bytes → Type 0} where
  pub start_batch-Still : Runs (Still P) start_batch
  unfolding start_batch
  start_batch-Still = search stills depth 20

  pub start_batch-Frame : Runs (Frame P) start_batch
  start_batch-Frame = Runs-Frame start_batch-Still

  check_self_limits-Frame : Runs (Frame P) check_self_limits
  unfolding check_self_limits
  check_self_limits-Frame = search (frames, log-Frame) depth 20

  judge_limit-Frame : (b : Bool) → Runs (Frame P) (judge_limit b)
  unfolding judge_limit
  judge_limit-Frame true = search (frames, log-Frame) depth 20
  judge_limit-Frame false = check_self_limits-Frame

  pub end_batch-Frame : (files bytes_freed : ℕ) → Runs (Frame P) (end_batch files bytes_freed)
  unfolding end_batch
  end_batch-Frame files bytes_freed = search (frames, log-Frame, judge_limit-Frame) depth 30
