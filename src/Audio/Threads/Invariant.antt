-- ===== src/Audio/Threads/Invariant.antt =====
-- g_running and the thread of audio/mic_fixer.cpp go together.
use fresh_core_native.Prelude.{
  ◌≡◌, refl, sym, ◌∙◌, ap, subst, arith, Bytes, Bool, true, false, Option, none, some, List, [],
  ◌∷◌, if◌then◌else◌,
}
use fresh_core_native.Os.{Env, Call}
use fresh_core_native.Sys.{Sys, Mic, Thread, alsa, polling}
use fresh_core_native.Sys.Monad.{
  IsPreorder, Runs, Runs-pure, Runs-bind, Runs-if, Runs-modify, runs, perform, modify,
}
use fresh_core_native.Sys.Monad
use fresh_core_native.Sys.Logged.{Logged, Logged-IsPreorder, logged}
use fresh_core_native.Logging.Calls.{log-Logged}
use fresh_core_native.Audio.Threads.{
  set_running, watch_name, watch_names, watch_captures, start_thread, fall_back, begin_polling,
  start_polling, join_thread, end_polling, stop_polling,
}

-- A thread is joinable exactly while g_running holds.
pub data InStep : Mic → Type 0 where
  idle : {path : Bytes} → InStep (record { running = false; tinymix_path = path; thread = none })
  started :
      {path : Bytes} {t : Thread}
      → InStep (record { running = true; tinymix_path = path; thread = some t })

logged_mic : {s t : Sys} → Logged s t → t.mic ≡ s.mic
logged_mic h = ap (λ (x : Sys). x.mic) h.rest

module _ ⦃env : Env⦄ where
  watch_names-Logged :
      (names : List Bytes) (success : Bool) → Runs Logged (watch_names names success)
  unfolding watch_names watch_name
  watch_names-Logged [] success = Runs-pure _
  watch_names-Logged (filename ∷ names) success =
      Runs-bind _ _ (search logged depth 20) λ next. watch_names-Logged names next

  watch_captures-Logged : Runs Logged watch_captures
  unfolding watch_captures
  watch_captures-Logged = search (logged, watch_names-Logged) depth 20

  -- What a start of the thread makes of g_running and of the thread.
  record Starts (s t : Sys) : Type 0 where
    thread : Thread
    mic : t.mic ≡ record s.mic { thread = some thread }

  start_thread-Starts : (thread : Thread) (s : Sys) → Starts s (start_thread thread s).1
  unfolding start_thread Monad.◌>>=◌ Monad.perform Monad.modify
  start_thread-Starts thread s = record { thread = thread; mic = refl }

  fall_back-Starts : (fd : Bool) (s : Sys) → Starts s (fall_back fd s).1
  unfolding fall_back Monad.◌>>=◌ Monad.perform Monad.pure start_thread Monad.modify
  fall_back-Starts true s = record {
    thread = polling;
    mic =
        ap (λ (m : Mic). record m { thread = some polling }) (logged_mic ((log-Logged _ _ _).at _));
  }
  fall_back-Starts false s = record {
    thread = polling;
    mic =
        ap (λ (m : Mic). record m { thread = some polling }) (logged_mic ((log-Logged _ _ _).at _));
  }

  start_either :
      (ok fd : Bool) (s : Sys) → Starts s ((if ok then start_thread alsa else fall_back fd) s).1
  start_either true fd s = start_thread-Starts alsa s
  start_either false fd s = fall_back-Starts fd s

  watch-Logged : (fd : Bool) → Runs Logged (if fd then watch_captures else Monad.pure false)
  watch-Logged true = watch_captures-Logged
  watch-Logged false = Runs-pure _

  begin_polling_mic :
      (s : Sys)
      → (t : Thread) × ((begin_polling s).1.mic ≡ record s.mic { running = true; thread = some t })
  unfolding begin_polling Monad.◌>>=◌ Monad.modify perform
  begin_polling_mic s =
      let m = perform Call.inotify_init env.inotify_init (set_running true s) in
      let w = (if m.0 then watch_captures else Monad.pure false) m.1 in
      let end = start_either w.0 m.0 w.1 in
      (
        end.thread,
        end.mic
            ∙ ap (λ (m : Mic). record m { thread = some end.thread })
                (logged_mic ((watch-Logged m.0).at m.1)),
      )

  start_cases :
      (running : Bool) (s : Sys)
      → s.mic.running ≡ running
      → InStep s.mic
      → InStep ((if running then Monad.pure tt else begin_polling) s).1.mic
        × (((if running then Monad.pure tt else begin_polling) s).1.mic.running ≡ true)
  unfolding Monad.pure
  start_cases true s e h = (h, e)
  start_cases false s e h =
      let (t, end) = begin_polling_mic s in
      (subst InStep (sym end) started, ap (λ (m : Mic). m.running) end)

  -- Where g_running and the thread go together, they do after StartPolling, and g_running
  -- holds.
  pub start_polling-InStep :
      (s : Sys)
      → InStep s.mic
      → InStep (start_polling s).1.mic × ((start_polling s).1.mic.running ≡ true)
  unfolding start_polling Monad.◌>>=◌ Monad.gets
  start_polling-InStep s h = start_cases s.mic.running s refl h

  join_thread_mic :
      (t : Option Thread) (s : Sys)
      → s.mic.thread ≡ t
      → (join_thread t s).1.mic ≡ record s.mic { thread = none }
  unfolding join_thread Monad.◌>>=◌ perform modify Monad.pure
  join_thread_mic none s e = ap (λ (t : Option Thread). record s.mic { thread = t }) e
  join_thread_mic (some t) s e = refl

  stopped_mic :
      (m : Mic) → InStep m → m.running ≡ false → m ≡ record m { running = false; thread = none }
  stopped_mic _ idle e = refl
  stopped_mic _ started e = ground (arith, e)

  stop_cases :
      (running : Bool) (s : Sys)
      → s.mic.running ≡ running
      → InStep s.mic
      → ((if running then end_polling else Monad.pure tt) s).1.mic
        ≡ record s.mic { running = false; thread = none }
  unfolding end_polling Monad.◌>>=◌ Monad.gets Monad.pure modify
  stop_cases true s e h = join_thread_mic s.mic.thread (set_running false s) refl
  stop_cases false s e h = stopped_mic s.mic h e

  -- Where g_running and the thread go together, StopPolling leaves no thread and g_running false, and
  -- keeps the path of tinymix.
  stop_polling-InStep :
      (s : Sys)
      → InStep s.mic
      → (stop_polling s).1.mic ≡ record s.mic { running = false; thread = none }
  unfolding stop_polling Monad.◌>>=◌ Monad.gets
  stop_polling-InStep s h = stop_cases s.mic.running s refl h
