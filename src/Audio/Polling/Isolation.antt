-- ===== src/Audio/Polling/Isolation.antt =====
-- The run of PollLoop of audio/mic_fixer.cpp leaves the rest of the daemon alone.
use fresh_core_native.Prelude.{Bool, true, false, List, [], ◌∷◌, ℕ, zero, suc}
use fresh_core_native.Os.{Env}
use fresh_core_native.Sys.Monad.{Runs, Runs-pure, Runs-bind, Runs-if, Emits-IsPreorder}
use fresh_core_native.Audio.Commands.{exec_command}
use fresh_core_native.Audio.Polling.{
  AudioMode, ringtone, connected, other, CallState, Round, react, poll_mode, sleep_rounds,
  poll_rounds, poll_loop,
}
use fresh_core_native.Audio.Isolation.{
  Apart, Apart-IsPreorder, apart, log-Apart, discover_tinymix-Apart, apply_pre_init-Apart,
  apply_mic_fix-Apart, show_notification-Apart,
}

module _ ⦃env : Env⦄ where
  react-Apart : (mode : AudioMode) (m : CallState) → Runs Apart (react mode m)
  unfolding react
  react-Apart ringtone m = search (apart, log-Apart, apply_pre_init-Apart) depth 20
  react-Apart connected m =
      search (apart, log-Apart, apply_pre_init-Apart, apply_mic_fix-Apart, show_notification-Apart)
        depth 30
  react-Apart other m = search (apart, log-Apart) depth 20

  pub poll_mode-Apart : (m : CallState) → Runs Apart (poll_mode m)
  unfolding poll_mode exec_command
  poll_mode-Apart m = search (apart, react-Apart) depth 20

  pub sleep_rounds-Apart : (n : ℕ) (reads : List Bool) → Runs Apart (sleep_rounds n reads)
  unfolding sleep_rounds
  sleep_rounds-Apart zero reads = Runs-pure _
  sleep_rounds-Apart (suc n) [] = Runs-pure _
  sleep_rounds-Apart (suc n) (false ∷ reads) = Runs-pure _
  sleep_rounds-Apart (suc n) (true ∷ reads) =
      Runs-bind _ _ (search apart) λ _. sleep_rounds-Apart n reads

  poll_rounds-Apart : (m : CallState) (rounds : List Round) → Runs Apart (poll_rounds m rounds)
  unfolding poll_rounds
  poll_rounds-Apart m [] = Runs-pure _
  poll_rounds-Apart m (r ∷ rounds) =
      Runs-if _ _ _
        (Runs-bind _ _ (poll_mode-Apart m)
          λ m'. Runs-bind _ _ (sleep_rounds-Apart 30 r.asleep) λ _. poll_rounds-Apart m' rounds)
        (Runs-pure _)

  -- Over a whole run of PollLoop, as far as its rounds go, nothing changes but the log, its variables
  -- and the path of tinymix, and no file is removed.
  pub poll_loop-Apart : (rounds : List Round) → Runs Apart (poll_loop rounds)
  unfolding poll_loop
  poll_loop-Apart rounds =
      search (apart, log-Apart, discover_tinymix-Apart, poll_rounds-Apart) depth 30
