-- ===== src/Scheduler/Setup.antt =====
-- RunScheduler where its descriptors cannot be had.
use fresh_core_native.Prelude.{
  Bytes, [], ℕ, ◌≡◌, refl, String, Bool, true, false, some, List, if◌then◌else◌,
}
use fresh_core_native.Os.{Env, Call, History, LogLevel, Arg}
use fresh_core_native.Sys.{Sys}
use fresh_core_native.Sys.Monad.{St, Runs, Emits, Emits-IsPreorder, emits}
use fresh_core_native.Sys.Monad
use fresh_core_native.Sys.Fuel.{Prog-bind, Prog-if, Prog, return, lift, ◌>>=◌}
use fresh_core_native.Sys.Frame.{Frame, Frame-IsPreorder, frames}
use fresh_core_native.Logging.Calls.{log-Frame}
use fresh_core_native.Logging.{log}
use fresh_core_native.Logging.Emissions.{IsLogCall, log-Emits}
use fresh_core_native.Scheduler.{
  Turn, Ending, stopped, waiting, set_timer, event_loop, conclude, run_loop, watch_timer,
  create_timer, run_scheduler,
}

-- The calls that make, watch and close the descriptors, and those of the log.
pub data IsSetup : Call → Type 0 where
  logs : {c : Call} → IsLogCall c → IsSetup c
  create_epoll : IsSetup Call.epoll_create
  create_timer_fd : IsSetup Call.timerfd_create
  watch : IsSetup Call.epoll_add
  close_timer_fd : IsSetup Call.close_timer
  close_epoll_fd : IsSetup Call.close_epoll

ruleset setups = (emits, create_epoll, create_timer_fd, watch, close_timer_fd, close_epoll_fd)

-- `m` returns `stopped`, and all its calls are those above.
pub record GivesUp (m : Prog Ending) : Type 0 where
  pub ending : (s : Sys) → (m s).0 ≡ some stopped
  pub calls : Runs (Emits IsSetup) m

GivesUp-return : GivesUp (return stopped)
unfolding return
GivesUp-return = record { ending = λ s. refl; calls = record { at = λ s. Emits-IsPreorder.same s } }

GivesUp-if : (b : Bool) (m n : Prog Ending) → GivesUp m → GivesUp n → GivesUp (if b then m else n)
GivesUp-if true m n hm hn = hm
GivesUp-if false m n hm hn = hn

-- Whatever `m` results in satisfies `T`, and that is enough for what follows.
GivesUp-knowing :
    {A : Type 0} (T : A → Type 0) (m : St A) (f : A → Prog Ending)
    → Runs (Emits IsSetup) m
    → ((s : Sys) → T (m s).0)
    → ((a : A) → T a → GivesUp (f a))
    → GivesUp (lift m >>= f)
unfolding ◌>>=◌ lift
GivesUp-knowing T m f hm ht hf = record {
  ending = λ s. (hf (m s).0 (ht s)).ending (m s).1;
  calls = record {
    at = λ s. Emits-IsPreorder.trans _ _ _ (hm.at s) ((hf (m s).0 (ht s)).calls.at (m s).1);
  };
}

GivesUp-lift :
    {A : Type 0} (m : St A) (f : A → Prog Ending)
    → Runs (Emits IsSetup) m
    → ((a : A) → GivesUp (f a))
    → GivesUp (lift m >>= f)
GivesUp-lift m f hm hf = GivesUp-knowing (λ _. Unit {0}) m f hm (λ s. tt) (λ a _. hf a)

refused : (b : Bool) (m n : Prog Ending) → b ≡ false → GivesUp n → GivesUp (if b then m else n)
refused b m n e h = rw e h

module _ ⦃env : Env⦄ where
  log-Setup :
      (level : LogLevel) (format : String) (args : List Arg)
      → Runs (Emits IsSetup) (log level format args)
  log-Setup = log-Emits (λ c. logs)

  module _ (never : (h : History) → env.epoll_add h ≡ false) (fuel : ℕ) (turns : List Turn) where
    watch_timer-GivesUp : GivesUp (watch_timer fuel turns)
    unfolding watch_timer Monad.perform
    watch_timer-GivesUp =
        GivesUp-knowing (λ added. added ≡ false) _ _ (search setups) (λ s. never s.calls)
          λ added e. refused added _ _ e (
            GivesUp-lift _ _ (log-Setup _ _ _) λ _.
              GivesUp-lift _ _ (search setups)
                λ _. GivesUp-lift _ _ (search setups) λ _. GivesUp-return)

    create_timer-GivesUp : GivesUp (create_timer fuel turns)
    unfolding create_timer
    create_timer-GivesUp = GivesUp-lift _ _ (search setups) λ created.
        GivesUp-if created _ _ watch_timer-GivesUp (
          GivesUp-lift _ _ (log-Setup _ _ _)
            λ _. GivesUp-lift _ _ (search setups) λ _. GivesUp-return)

    -- Where the timer can never be added to epoll, RunScheduler returns, and whether or not an earlier
    -- descriptor fails its calls only make, watch and close descriptors and write to the log.
    run_scheduler-GivesUp : GivesUp (run_scheduler fuel turns)
    unfolding run_scheduler
    run_scheduler-GivesUp = GivesUp-lift _ _ (search setups) λ created.
        GivesUp-if created _ _ create_timer-GivesUp
          (GivesUp-lift _ _ (log-Setup _ _ _) λ _. GivesUp-return)

module _ ⦃env : Env⦄ {P : Bytes → Type 0} where
  conclude_waiting-Frame : (ending : Ending) → Runs (Frame P) (conclude ending)
  unfolding conclude
  conclude_waiting-Frame waiting = search frames
  conclude_waiting-Frame stopped = search (frames, log-Frame) depth 20

  run_loop-Frame : (fuel : ℕ) → Runs (Frame P) (run_loop fuel [])
  unfolding run_loop event_loop set_timer
  run_loop-Frame fuel = search (frames, log-Frame, conclude_waiting-Frame) depth 30

  watch_timer-Frame : (fuel : ℕ) → Runs (Frame P) (watch_timer fuel [])
  unfolding watch_timer
  watch_timer-Frame fuel =
      Prog-bind _ _ (search frames)
        λ added. Prog-if added _ _ (run_loop-Frame fuel) (search (frames, log-Frame) depth 30)

  create_timer-Frame : (fuel : ℕ) → Runs (Frame P) (create_timer fuel [])
  unfolding create_timer
  create_timer-Frame fuel =
      Prog-bind _ _ (search frames) λ created.
        Prog-if created _ _ (watch_timer-Frame fuel) (search (frames, log-Frame) depth 30)

  -- RunScheduler up to its loop removes nothing and leaves the configuration, the variables of the
  -- audio thread and the engine alone.
  pub run_scheduler_sets_up : (fuel : ℕ) → Runs (Frame P) (run_scheduler fuel [])
  unfolding run_scheduler
  run_scheduler_sets_up fuel =
      Prog-bind _ _ (search frames) λ created.
        Prog-if created _ _ (create_timer-Frame fuel) (search (frames, log-Frame) depth 30)
