-- ===== src/Tweaks/Calls.antt =====
-- The doze commands remove no file and leave the configuration and the engine alone.
use fresh_core_native.Prelude.{Bytes}
use fresh_core_native.Os.{Env}
use fresh_core_native.Sys.Monad.{Runs}
use fresh_core_native.Sys.Frame.{Frame, Frame-IsPreorder, frames}
use fresh_core_native.Logging.Calls.{log-Frame}
use fresh_core_native.Tweaks.{optimize_doze, wake_from_doze}

module _ ⦃env : Env⦄ {P : Bytes → Type 0} where
  pub optimize_doze-Frame : Runs (Frame P) optimize_doze
  unfolding optimize_doze
  optimize_doze-Frame = search (frames, log-Frame) depth 20

  pub wake_from_doze-Frame : Runs (Frame P) wake_from_doze
  unfolding wake_from_doze
  wake_from_doze-Frame = search (frames, log-Frame) depth 20
