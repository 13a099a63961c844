-- ===== src/Audio/Alsa.antt =====
-- audio/mic_fixer.cpp: AlsaInotifyLoop. The count of streams is an int, counted without wrapping.
pub mod Notifications
pub mod Streams
pub mod Run
pub mod Events
pub mod Isolation
use Prim.Native.Nat.{bit_and}
use fresh_core_native.Prelude.{
  ℕ, ℤ, pos, zero, suc, ◌+◌, ◌-◌, Bytes, is_empty, Bool, true, false, not, Option, none, some, List,
  [], ◌∷◌, length, drop, take, ltb, ◌==◌, if◌then◌else◌,
}
use fresh_core_native.Os.{Env, Call, info}
use fresh_core_native.Sys.Monad.{St, pure, perform, ◌>>=◌, ◌>>◌}
use fresh_core_native.Logging.{log}
use fresh_core_native.StateImage.{from_le, word_at}
use fresh_core_native.Audio.Commands.{discover_tinymix}
use fresh_core_native.Audio.Routes.{apply_pre_init, apply_mic_fix, show_notification}
use fresh_core_native.Audio.Polling.{LoopEnd, ended, waiting}

-- event->mask & IN_OPEN, and event->mask & (IN_CLOSE_WRITE | IN_CLOSE_NOWRITE)
abbrev pub opens : ℕ → Bool
opens mask = not (bit_and mask 0x20 == 0)

abbrev pub closes : ℕ → Bool
closes mask = not (bit_and mask 0x18 == 0)

-- The masks of the events in the buffer: each event has 16 bytes, the mask after four, and a name of
-- the length that its last four bytes give. `n` bounds the events.
unfoldable pub masks_in : ℕ → Bytes → List ℕ
unfolding from_le
masks_in zero s = []
masks_in (suc n) [] = []
masks_in (suc n) (b ∷ s) =
    word_at 4 4 (b ∷ s) ∷ masks_in n (drop (16 + word_at 12 4 (b ∷ s)) (b ∷ s))

-- One round of the loop, where g_running holds unless it is `stopping`: what poll and read give.
pub data AlsaTurn : Type 0 where
  stopping poll_failed timed_out : AlsaTurn
  readable : Option Bytes → AlsaTurn

abbrev pub poll_timeout : ℤ
poll_timeout = pos 500

module _ ⦃env : Env⦄ where
  unfoldable pub on_open : ℕ → St (Unit {0})
  on_open stream_count =
      if stream_count == 1
      then (do
        log info "ALSA INTERCEPT: Primary Capture Stream Opened! (0 ms delay)" []
        apply_pre_init
        apply_mic_fix
        show_notification
        log info "Hardware Primed and Ready natively!" [])
      else log info "ALSA INTERCEPT: Secondary stream opened. Ignoring to prevent mid-call stutter."
          []

  -- The count after an opening, and after a closing.
  handle_open : Bool → ℕ → St ℕ
  unfolding on_open
  handle_open false stream_count = pure stream_count
  handle_open true stream_count = do on_open (stream_count + 1); pure (stream_count + 1)

  handle_close : Bool → ℕ → St ℕ
  handle_close false stream_count = pure stream_count
  handle_close true zero = pure zero
  handle_close true (suc n) = do
    if n == 0 then log info "ALSA INTERCEPT: All Capture Streams Closed." [] else pure tt
    pure n

  handle_event : ℕ → ℕ → St ℕ
  unfolding handle_open handle_close
  handle_event stream_count mask = do
    n ← handle_open (opens mask) stream_count
    handle_close (closes mask) n

  unfoldable pub handle_events : ℕ → List ℕ → St ℕ
  unfolding handle_event
  handle_events stream_count [] = pure stream_count
  handle_events stream_count (mask ∷ masks) = do
    n ← handle_event stream_count mask
    handle_events n masks

  unfoldable pub alsa_turns : ℕ → List AlsaTurn → St LoopEnd
  unfolding handle_events masks_in
  alsa_turns stream_count [] = pure waiting
  alsa_turns stream_count (stopping ∷ turns) = pure ended
  alsa_turns stream_count (poll_failed ∷ turns) = do
    perform (Call.poll poll_timeout) (λ h. tt)
    pure ended
  alsa_turns stream_count (timed_out ∷ turns) = do
    perform (Call.poll poll_timeout) (λ h. tt)
    alsa_turns stream_count turns
  alsa_turns stream_count (readable none ∷ turns) = do
    perform (Call.poll poll_timeout) (λ h. tt)
    perform Call.read_events (λ h. tt)
    pure ended
  alsa_turns stream_count (readable (some []) ∷ turns) = do
    perform (Call.poll poll_timeout) (λ h. tt)
    perform Call.read_events (λ h. tt)
    pure ended
  alsa_turns stream_count (readable (some (b ∷ buffer)) ∷ turns) = do
    perform (Call.poll poll_timeout) (λ h. tt)
    perform Call.read_events (λ h. tt)
    n ← handle_events stream_count (masks_in (length (b ∷ buffer)) (b ∷ buffer))
    alsa_turns n turns

  -- close(fd) behind the loop
  unfoldable pub close_ended : LoopEnd → St LoopEnd
  close_ended waiting = pure waiting
  close_ended ended = do perform Call.close_inotify (λ h. tt); pure ended

  unfoldable pub alsa_inotify_loop : List AlsaTurn → St LoopEnd
  unfolding alsa_turns close_ended
  alsa_inotify_loop turns = do
    log info "Native ALSA Hooking Active! (0% CPU Event-Driven Mode)" []
    discover_tinymix
    end ← alsa_turns 0 turns
    close_ended end
