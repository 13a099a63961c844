-- ===== src/Audio/Threads.antt =====
-- audio/mic_fixer.cpp: StartPolling and StopPolling.
pub mod Calls
pub mod Invariant
use fresh_core_native.Prelude.{
  Bytes, bytes, join, starts_with, Bool, true, false, not, ◌&&◌, ◌||◌, Option, none, some, List, [],
  ◌∷◌, ◌==◌, if◌then◌else◌,
}
use fresh_core_native.Os.{Env, Call, warning}
use fresh_core_native.Sys.{Sys, Thread, alsa, polling}
use fresh_core_native.Sys.Monad.{St, pure, gets, modify, perform, ◌>>=◌, ◌>>◌}
use fresh_core_native.Logging.{log}

abbrev pub sound_dir : Bytes
sound_dir = bytes "/dev/snd"

-- filename.back() == 'c'; readdir gives no empty name
ends_in_c : Bytes → Bool
ends_in_c [] = false
ends_in_c (c ∷ []) = c == b'c'
ends_in_c (c ∷ d ∷ s) = ends_in_c (d ∷ s)

unfoldable pub is_capture : Bytes → Bool
unfolding ends_in_c starts_with bytes
is_capture filename = ends_in_c filename && starts_with (bytes "pcm") filename

abbrev pub set_running : Bool → Sys → Sys
set_running b s = record s { mic = record s.mic { running = b } }

abbrev pub set_thread : Option Thread → Sys → Sys
set_thread t s = record s { mic = record s.mic { thread = t } }

module _ ⦃env : Env⦄ where
  -- Whether a watch could be added; `alsa_success` stays true once it is.
  watch_name : Bytes → Bool → St Bool
  unfolding is_capture
  watch_name filename alsa_success =
      if is_capture filename
      then (do
        added ←
            perform (Call.inotify_add_watch (join sound_dir filename))
              (λ h. env.inotify_add_watch h (join sound_dir filename))
        pure (added || alsa_success))
      else pure alsa_success

  watch_names : List Bytes → Bool → St Bool
  unfolding watch_name
  watch_names [] alsa_success = pure alsa_success
  watch_names (filename ∷ names) alsa_success = do
    success ← watch_name filename alsa_success
    watch_names names success

  watch_captures : St Bool
  unfolding watch_names
  watch_captures = do
    opened ← perform (Call.opendir sound_dir) (λ h. env.opendir h sound_dir)
    if opened
        then (do
          names ← perform (Call.readdir sound_dir) (λ h. env.entries h sound_dir)
          success ← watch_names names false
          perform (Call.closedir sound_dir) (λ h. tt)
          pure success)
        else pure false

  start_thread : Thread → St (Unit {0})
  start_thread t = do modify (set_thread (some t)); perform Call.thread_start (λ h. tt)

  fall_back : Bool → St (Unit {0})
  unfolding start_thread
  fall_back fd = do
    if fd then perform Call.close_inotify (λ h. tt) else pure tt
    log warning "Native ALSA Hooking unavailable. Falling back to Dumpsys polling loop." []
    start_thread polling

  begin_polling : St (Unit {0})
  unfolding watch_captures start_thread fall_back
  begin_polling = do
    modify (set_running true)
    fd ← perform Call.inotify_init env.inotify_init
    alsa_success ← if fd then watch_captures else pure false
    if alsa_success then start_thread alsa else fall_back fd

  unfoldable pub start_polling : St (Unit {0})
  unfolding begin_polling
  start_polling = do running ← gets (λ s. s.mic.running); if running then pure tt else begin_polling

  unfoldable pub join_thread : Option Thread → St (Unit {0})
  join_thread none = pure tt
  join_thread (some t) = do perform Call.thread_join (λ h. tt); modify (set_thread none)

  end_polling : St (Unit {0})
  unfolding join_thread
  end_polling = do modify (set_running false); thread ← gets (λ s. s.mic.thread); join_thread thread

  unfoldable pub stop_polling : St (Unit {0})
  unfolding end_polling
  stop_polling = do running ← gets (λ s. s.mic.running); if running then end_polling else pure tt
