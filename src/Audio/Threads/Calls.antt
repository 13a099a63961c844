-- ===== src/Audio/Threads/Calls.antt =====
-- Starting and stopping the audio thread removes no file.
use fresh_core_native.Prelude.{Bytes, String, Bool, Option, none, some, List, [], ◌∷◌}
use fresh_core_native.Os.{Env, LogLevel, Arg}
use fresh_core_native.Logging.{log}
use fresh_core_native.Sys.{Thread}
use fresh_core_native.Sys.Monad.{Runs, Runs-pure, Runs-bind, Emits, Emits-IsPreorder, emits}
use fresh_core_native.Sys.Frame.{MayRemove}
use fresh_core_native.Logging.Calls.{log-Frame}
use fresh_core_native.Audio.Threads.{
  watch_name, watch_names, watch_captures, start_thread, fall_back, begin_polling, start_polling,
  join_thread, end_polling, stop_polling,
}

module _ ⦃env : Env⦄ {P : Bytes → Type 0} where
  log-Keeping :
      (level : LogLevel) (format : String) (args : List Arg)
      → Runs (Emits (MayRemove P)) (log level format args)
  log-Keeping level format args = record {
    at = λ s. ((log-Frame {P = P} level format args).at s).steady.emits;
  }

  watch_names-Emits :
      (names : List Bytes) (success : Bool) → Runs (Emits (MayRemove P)) (watch_names names success)
  unfolding watch_names watch_name
  watch_names-Emits [] success = Runs-pure _
  watch_names-Emits (filename ∷ names) success =
      Runs-bind _ _ (search emits depth 20) λ next. watch_names-Emits names next

  watch_captures-Emits : Runs (Emits (MayRemove P)) watch_captures
  unfolding watch_captures
  watch_captures-Emits = search (emits, watch_names-Emits) depth 20

  start_thread-Emits : (t : Thread) → Runs (Emits (MayRemove P)) (start_thread t)
  unfolding start_thread
  start_thread-Emits t = search emits depth 20

  fall_back-Emits : (fd : Bool) → Runs (Emits (MayRemove P)) (fall_back fd)
  unfolding fall_back
  fall_back-Emits fd = search (emits, log-Keeping, start_thread-Emits) depth 20

  pub start_polling-Emits : Runs (Emits (MayRemove P)) start_polling
  unfolding start_polling begin_polling
  start_polling-Emits =
      search (emits, watch_captures-Emits, start_thread-Emits, fall_back-Emits) depth 30

  join_thread-Emits : (t : Option Thread) → Runs (Emits (MayRemove P)) (join_thread t)
  unfolding join_thread
  join_thread-Emits none = search emits
  join_thread-Emits (some t) = search emits depth 20

  pub stop_polling-Emits : Runs (Emits (MayRemove P)) stop_polling
  unfolding stop_polling end_polling
  stop_polling-Emits = search (emits, join_thread-Emits) depth 30
