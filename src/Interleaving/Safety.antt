-- ===== src/Interleaving/Safety.antt =====
-- What holds of the daemon however its two threads take turns.
use fresh_core_native.Prelude.{ℕ, ◌≡◌, refl, ap, ◌∙◌, false, Option, none, some, [], ◌∷◌, arith}
use fresh_core_native.Os.{Env, Call, error}
use fresh_core_native.Logging.{log}
use fresh_core_native.Sys.{Sys, Mic, Thread, alsa}
use fresh_core_native.Sys.Monad.{Runs, Emits, Emits-weaken, perform, modify}
use fresh_core_native.Sys.Monad
use fresh_core_native.Sys.Frame.{Steady-IsPreorder, Frame, Frame-IsPreorder, frames}
use fresh_core_native.Logging.Calls.{log-Frame}
use fresh_core_native.Cache.Analyzer.Order.{Sorts}
use fresh_core_native.Audio.Isolation.{Apart-IsPreorder}
use fresh_core_native.Audio.Polling.{ended}
use fresh_core_native.Audio.Polling.Isolation.{poll_loop-Apart}
use fresh_core_native.Audio.Alsa.Isolation.{alsa_inotify_loop-Apart, close_ended-Apart}
use fresh_core_native.Audio.Threads.{set_running, join_thread}
use fresh_core_native.Scheduler.{stopped, conclude}
use fresh_core_native.Scheduler.Setup.{run_scheduler_sets_up}
use fresh_core_native.Scheduler.Loop.{handle_ready-Cleans}
use fresh_core_native.Interleaving.{
  AudioThread, finished, joining, joined, Daemon, Step, set_up, give_up, serve, stop, fail,
  enter_poll_loop, enter_alsa_loop, join, poll, poll_ends, watch, returns, watch_ends, close,
}
use fresh_core_native.Interleaving.Rounds.{poll_round-Apart, alsa_round-Apart}
use fresh_core_native.Interleaving.Moves.{rest, ⟶*-same, handle_ready_moves}
use fresh_core_native.Interleaving.Invariant.{
  InPhase, none-IsCleanable, Apart-Continues, phase_apart, after, polling_ne, closing_ne,
  entering_ne, in_poll_ne, watching_ne, phase_ends, same_sys, Since, Continues,
}

module _ ⦃env : Env⦄ where
  conclude-Frame : Runs (Frame (λ _. ⊥)) (conclude stopped)
  unfolding conclude
  conclude-Frame = search (frames, log-Frame) depth 20

  failed_Frame :
      (s : Sys) → Frame (λ _. ⊥) s (conclude stopped (log error "epoll_wait failed" [] s).1).1
  failed_Frame s =
      Frame-IsPreorder.trans _ _ _ ((log-Frame error "epoll_wait failed" []).at s)
        (conclude-Frame.at _)

  Frame-Continues : {s t : Sys} → Frame (λ _. ⊥) s t → Continues s t
  Frame-Continues h = record {
    removes = none-IsCleanable h.steady.emits;
    config = h.steady.config;
    engine = ⟶*-same h.engine;
  }

  -- StopPolling clears g_running.
  stopping : {s t : Sys} → Frame (λ _. ⊥) s t → Continues s (set_running false t)
  stopping h =
      let c = Frame-Continues h in
      record {
        removes = record { new = c.removes.new; calls = c.removes.calls; each = c.removes.each };
        config = c.config;
        engine = c.engine;
      }

  stopped_phase :
      {s t : Sys} (a : AudioThread)
      → Frame (λ _. ⊥) s t
      → (u : Thread) × (s.mic.thread ≡ some u)
      → InPhase joining (set_running false t).mic a
  stopped_phase a h (u, e) = (refl, (u, ap (λ (m : Mic). m.thread) h.steady.mic ∙ e))

  joined_thread :
      (t : Thread) (o : Option Thread) (s : Sys)
      → o ≡ some t
      → s.mic.running ≡ false
      → Continues s (join_thread o s).1 × InPhase joined (join_thread o s).1.mic finished
  unfolding join_thread Monad.◌>>=◌ Monad.perform Monad.modify
  joined_thread t none s e off = ground (arith, e)
  joined_thread t (some u) s e off = (
    record {
      removes = record { new = Call.thread_join ∷ []; calls = refl; each = (tt, tt) };
      config = refl;
      engine = rest;
    },
    (off, refl, refl),
  )

  module _ (sorts : Sorts env.sort) (fuel : ℕ) (start : Sys) where
    pub step-Since : {d e : Daemon} → Since start d → Step fuel d e → Since start e
    step-Since since (serve {s} fds returned) =
        let c = (handle_ready-Cleans sorts fuel fds).at s in
        after since
          (record {
            removes = c.emits;
            config = c.config;
            engine = handle_ready_moves fuel fds s returned;
          })
          (
            ap (λ (m : Mic). m.running) c.mic ∙ since.in_phase.0,
            (since.in_phase.1.0, ap (λ (m : Mic). m.thread) c.mic ∙ since.in_phase.1.1),
          )
    step-Since since (set_up {s} {a} returned) =
        let h = (run_scheduler_sets_up fuel).at s in
        after since (Frame-Continues h) (
          ap (λ (m : Mic). m.running) h.steady.mic ∙ since.in_phase.0,
          (since.in_phase.1.0, ap (λ (m : Mic). m.thread) h.steady.mic ∙ since.in_phase.1.1),
        )
    step-Since since (give_up {s} {a} returned on) =
        let h = (run_scheduler_sets_up fuel).at s in
        after since (stopping h) (stopped_phase a h since.in_phase.1)
    step-Since since (stop {s} {a} on) =
        let h = conclude-Frame.at s in after since (stopping h) (stopped_phase a h since.in_phase.1)
    step-Since since (fail {s} {a} on) =
        let h = failed_Frame s in after since (stopping h) (stopped_phase a h since.in_phase.1)
    step-Since since (enter_poll_loop {s} {p}) =
        let h = (poll_loop-Apart []).at s in
        after since (Apart-Continues h)
          (phase_apart _ p h (entering_ne Thread.polling) since.in_phase)
    step-Since since (enter_alsa_loop {s} {p}) =
        let h = (alsa_inotify_loop-Apart []).at s in
        after since (Apart-Continues h) (phase_apart _ p h (entering_ne alsa) since.in_phase)
    step-Since since (close {s} {p}) =
        let h = (close_ended-Apart ended).at s in
        after since (Apart-Continues h) (phase_apart _ p h closing_ne since.in_phase)
    step-Since since (join {s}) =
        let (c, p) =
          joined_thread since.in_phase.1.0 s.mic.thread s since.in_phase.1.1 since.in_phase.0 in
        after since c p
    step-Since since (poll {s} {p} {m} asleep on) =
        let h = (poll_round-Apart asleep m).at s in
        after since (Apart-Continues h) (phase_apart _ p h (polling_ne m) since.in_phase)
    step-Since since (poll_ends {s} {p} {m} off) =
        after since (same_sys s) (phase_ends _ p s.mic off (polling_ne m) since.in_phase)
    step-Since since (watch {s} {p} {n} on) =
        after since (same_sys s)
          (phase_apart _ p (Apart-IsPreorder.same s) (watching_ne n) since.in_phase)
    step-Since since (returns {s} {p} {n} turn h) =
        let h = (alsa_round-Apart n turn).at s in
        after since (Apart-Continues h) (phase_apart _ p h (in_poll_ne n) since.in_phase)
    step-Since since (watch_ends {s} {p} {n} off) =
        after since (same_sys s) (phase_ends _ p s.mic off (watching_ne n) since.in_phase)
