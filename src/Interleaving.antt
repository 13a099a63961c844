-- ===== src/Interleaving.antt =====
-- core/main.cpp with the thread that it starts: RunScheduler and the loop of audio/mic_fixer.cpp by
-- turns, on the same globals, up to the join in StopPolling. A turn of either thread is one step, but
-- poll in AlsaInotifyLoop is a place of its own.
pub mod Rounds
pub mod Moves
pub mod Invariant
pub mod Safety
pub mod Shutdown
use fresh_core_native.Prelude.{
  ℕ, ℤ, pos, Bytes, length, ◌≡◌, Bool, true, false, Option, none, some, List, [], ◌∷◌,
}
use fresh_core_native.Os.{Env, Call, error}
use fresh_core_native.Logging.{log}
use fresh_core_native.Sys.{Sys, Thread, alsa}
use fresh_core_native.Sys.Monad.{St, pure, perform, ◌>>=◌, ◌>>◌}
use fresh_core_native.Audio.Polling.{CallState, no_call, ended, poll_mode, sleep_rounds, poll_loop}
use fresh_core_native.Audio.Alsa.{
  AlsaTurn, stopping, poll_failed, timed_out, readable, masks_in, handle_events, poll_timeout,
  close_ended, alsa_inotify_loop,
}
use fresh_core_native.Audio.Threads.{set_running, join_thread}
use fresh_core_native.Scheduler.{stopped, waiting, conclude, handle_ready, run_scheduler}

-- Where the thread is: at the beginning of its function; at the head of PollLoop's while, with its
-- variables; at the head of AlsaInotifyLoop's, with the count of streams; in its poll; behind its loop,
-- before close(fd); or at its end.
pub data AudioThread : Type 0 where
  entering : Thread → AudioThread
  polling : CallState → AudioThread
  watching : ℕ → AudioThread
  in_poll : ℕ → AudioThread
  closing : AudioThread
  finished : AudioThread

-- Where main is: before RunScheduler, in its loop, in the join of StopPolling, or behind it.
pub data Phase : Type 0 where
  preparing serving joining joined : Phase

-- What poll may give with a timeout: with none, -1, it waits for the descriptor or fails.
pub data Returns : ℤ → AlsaTurn → Type 0 where
  on_event : (timeout : ℤ) (content : Option Bytes) → Returns timeout (readable content)
  on_error : (timeout : ℤ) → Returns timeout poll_failed
  on_timeout : (ms : ℕ) → Returns (pos ms) timed_out

pub record Daemon : Type 0 where
  pub sys : Sys
  pub phase : Phase
  pub audio : AudioThread

module _ ⦃env : Env⦄ where
  -- A round of PollLoop whose test of g_running held; `asleep`: what the tests in its sleep read.
  unfoldable pub poll_round : List Bool → CallState → St CallState
  poll_round asleep m = do m' ← poll_mode m; sleep_rounds 30 asleep; pure m'

  -- A round of AlsaInotifyLoop whose test of g_running held: `none` leaves the loop.
  unfoldable pub alsa_round : ℕ → AlsaTurn → St (Option ℕ)
  alsa_round stream_count stopping = pure none
  alsa_round stream_count poll_failed = do perform (Call.poll poll_timeout) (λ h. tt); pure none
  alsa_round stream_count timed_out = do
    perform (Call.poll poll_timeout) (λ h. tt)
    pure (some stream_count)
  alsa_round stream_count (readable none) = do
    perform (Call.poll poll_timeout) (λ h. tt)
    perform Call.read_events (λ h. tt)
    pure none
  alsa_round stream_count (readable (some [])) = do
    perform (Call.poll poll_timeout) (λ h. tt)
    perform Call.read_events (λ h. tt)
    pure none
  alsa_round stream_count (readable (some (b ∷ buffer))) = do
    perform (Call.poll poll_timeout) (λ h. tt)
    perform Call.read_events (λ h. tt)
    n ← handle_events stream_count (masks_in (length (b ∷ buffer)) (b ∷ buffer))
    pure (some n)

  abbrev pub watching_on : Option ℕ → AudioThread
  watching_on none = closing
  watching_on (some n) = watching n

  -- The steps of the two threads.
  pub data Step (fuel : ℕ) : Daemon → Daemon → Type 0 where
    -- RunScheduler up to its loop, where its descriptors are made
    set_up :
        {s : Sys} {a : AudioThread}
        → (run_scheduler fuel [] s).0 ≡ some waiting
        → Step fuel
            (record { sys = s; phase = preparing; audio = a })
            (record { sys = (run_scheduler fuel [] s).1; phase = serving; audio = a })
    -- RunScheduler returns where one of them is not; StopPolling clears g_running
    give_up :
        {s : Sys} {a : AudioThread}
        → (run_scheduler fuel [] s).0 ≡ some stopped
        → (run_scheduler fuel [] s).1.mic.running ≡ true
        → Step fuel
            (record { sys = s; phase = preparing; audio = a })
            (record {
              sys = set_running false (run_scheduler fuel [] s).1;
              phase = joining;
              audio = a;
            })
    -- a turn of the event loop
    serve :
        {s : Sys} {a : AudioThread} (fds : List Bool)
        → (handle_ready fuel fds s).0 ≡ some tt
        → Step fuel
            (record { sys = s; phase = serving; audio = a })
            (record { sys = (handle_ready fuel fds s).1; phase = serving; audio = a })
    -- the loop has ended; StopPolling clears g_running
    stop :
        {s : Sys} {a : AudioThread}
        → (conclude stopped s).1.mic.running ≡ true
        → Step fuel
            (record { sys = s; phase = serving; audio = a })
            (record { sys = set_running false (conclude stopped s).1; phase = joining; audio = a })
    -- epoll_wait fails, and the loop ends
    fail :
        {s : Sys} {a : AudioThread}
        → (conclude stopped (log error "epoll_wait failed" [] s).1).1.mic.running ≡ true
        → Step fuel
            (record { sys = s; phase = serving; audio = a })
            (record {
              sys = set_running false (conclude stopped (log error "epoll_wait failed" [] s).1).1;
              phase = joining;
              audio = a;
            })
    -- the functions of the thread, up to their loops
    enter_poll_loop :
        {s : Sys} {p : Phase}
        → Step fuel
            (record { sys = s; phase = p; audio = entering Thread.polling })
            (record { sys = (poll_loop [] s).1; phase = p; audio = polling no_call })
    enter_alsa_loop :
        {s : Sys} {p : Phase}
        → Step fuel
            (record { sys = s; phase = p; audio = entering alsa })
            (record { sys = (alsa_inotify_loop [] s).1; phase = p; audio = watching 0 })
    -- the join, which waits for the thread
    join :
        {s : Sys}
        → Step fuel
            (record { sys = s; phase = joining; audio = finished })
            (record { sys = (join_thread s.mic.thread s).1; phase = joined; audio = finished })
    poll :
        {s : Sys} {p : Phase} {m : CallState} (asleep : List Bool)
        → s.mic.running ≡ true
        → Step fuel
            (record { sys = s; phase = p; audio = polling m })
            (record {
              sys = (poll_round asleep m s).1;
              phase = p;
              audio = polling (poll_round asleep m s).0;
            })
    poll_ends :
        {s : Sys} {p : Phase} {m : CallState}
        → s.mic.running ≡ false
        → Step fuel
            (record { sys = s; phase = p; audio = polling m })
            (record { sys = s; phase = p; audio = finished })
    -- g_running holds, and poll is called; it returns with what its timeout allows
    watch :
        {s : Sys} {p : Phase} {n : ℕ}
        → s.mic.running ≡ true
        → Step fuel
            (record { sys = s; phase = p; audio = watching n })
            (record { sys = s; phase = p; audio = in_poll n })
    returns :
        {s : Sys} {p : Phase} {n : ℕ} (turn : AlsaTurn)
        → Returns poll_timeout turn
        → Step fuel
            (record { sys = s; phase = p; audio = in_poll n })
            (record {
              sys = (alsa_round n turn s).1;
              phase = p;
              audio = watching_on (alsa_round n turn s).0;
            })
    watch_ends :
        {s : Sys} {p : Phase} {n : ℕ}
        → s.mic.running ≡ false
        → Step fuel
            (record { sys = s; phase = p; audio = watching n })
            (record { sys = s; phase = p; audio = closing })
    close :
        {s : Sys} {p : Phase}
        → Step fuel
            (record { sys = s; phase = p; audio = closing })
            (record { sys = (close_ended ended s).1; phase = p; audio = finished })

  -- Any number of steps.
  pub data Reach (fuel : ℕ) (d : Daemon) : Daemon → Type 0 where
    begin : Reach fuel d d
    then : {e f : Daemon} → Reach fuel d e → Step fuel e f → Reach fuel d f
