-- ===== src/Audio/Alsa/Isolation.antt =====
-- The run of AlsaInotifyLoop of audio/mic_fixer.cpp leaves the rest of the daemon alone.
use fresh_core_native.Prelude.{length, Bool, true, false, none, some, List, [], ◌∷◌, ℕ, zero, suc}
use fresh_core_native.Os.{Env}
use fresh_core_native.Sys.Monad.{Runs, Runs-pure, Runs-bind, Emits-IsPreorder}
use fresh_core_native.Audio.Polling.{LoopEnd, ended, waiting}
use fresh_core_native.Audio.Alsa.{
  masks_in, AlsaTurn, stopping, poll_failed, timed_out, readable, on_open, handle_open,
  handle_close, handle_event, handle_events, alsa_turns, close_ended, alsa_inotify_loop,
}
use fresh_core_native.Audio.Isolation.{
  Apart, Apart-IsPreorder, apart, log-Apart, discover_tinymix-Apart, apply_pre_init-Apart,
  apply_mic_fix-Apart, show_notification-Apart,
}

module _ ⦃env : Env⦄ where
  on_open-Apart : (n : ℕ) → Runs Apart (on_open n)
  unfolding on_open
  on_open-Apart n =
      search (apart, log-Apart, apply_pre_init-Apart, apply_mic_fix-Apart, show_notification-Apart)
        depth 30

  handle_open-Apart : (opened : Bool) (n : ℕ) → Runs Apart (handle_open opened n)
  unfolding handle_open
  handle_open-Apart false n = Runs-pure _
  handle_open-Apart true n = Runs-bind _ _ (on_open-Apart _) λ _. Runs-pure _

  handle_close-Apart : (closed : Bool) (n : ℕ) → Runs Apart (handle_close closed n)
  unfolding handle_close
  handle_close-Apart false n = Runs-pure _
  handle_close-Apart true zero = Runs-pure _
  handle_close-Apart true (suc n) = search (apart, log-Apart) depth 20

  pub handle_events-Apart : (n : ℕ) (masks : List ℕ) → Runs Apart (handle_events n masks)
  unfolding handle_events handle_event
  handle_events-Apart n [] = Runs-pure _
  handle_events-Apart n (mask ∷ masks) =
      Runs-bind _ _ (search (apart, handle_open-Apart, handle_close-Apart) depth 10)
        λ k. handle_events-Apart k masks

  alsa_turns-Apart : (n : ℕ) (turns : List AlsaTurn) → Runs Apart (alsa_turns n turns)
  unfolding alsa_turns
  alsa_turns-Apart n [] = Runs-pure _
  alsa_turns-Apart n (stopping ∷ turns) = Runs-pure _
  alsa_turns-Apart n (poll_failed ∷ turns) = search apart depth 10
  alsa_turns-Apart n (timed_out ∷ turns) =
      Runs-bind _ _ (search apart) λ _. alsa_turns-Apart n turns
  alsa_turns-Apart n (readable none ∷ turns) = search apart depth 10
  alsa_turns-Apart n (readable (some []) ∷ turns) = search apart depth 10
  alsa_turns-Apart n (readable (some (b ∷ buffer)) ∷ turns) = Runs-bind _ _ (search apart) λ _.
      Runs-bind _ _ (search apart) λ _.
        Runs-bind _ _ (handle_events-Apart n (masks_in (length (b ∷ buffer)) (b ∷ buffer)))
          λ k. alsa_turns-Apart k turns

  pub close_ended-Apart : (end : LoopEnd) → Runs Apart (close_ended end)
  unfolding close_ended
  close_ended-Apart waiting = Runs-pure _
  close_ended-Apart ended = search apart depth 10

  -- Over a whole run of AlsaInotifyLoop, as far as its turns go, nothing changes but the log, its
  -- variables and the path of tinymix, and no file is removed.
  pub alsa_inotify_loop-Apart : (turns : List AlsaTurn) → Runs Apart (alsa_inotify_loop turns)
  unfolding alsa_inotify_loop
  alsa_inotify_loop-Apart turns =
      search (apart, log-Apart, discover_tinymix-Apart, alsa_turns-Apart, close_ended-Apart) depth
        30
