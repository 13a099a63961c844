-- ===== src/Tests/Threads.antt =====
-- The theorems on the turns of the scheduler and of the audio thread, at concrete inputs.
use fresh_core_native.Prelude.{true, false, some, List, [], ◌∷◌, arith}
use fresh_core_native.Sys.{Sys, initial, polling, alsa}
use fresh_core_native.Sys.Monad
use fresh_core_native.Audio.Polling.{no_call, poll_loop}
use fresh_core_native.Audio.Alsa.{timed_out}
use fresh_core_native.Decision.Quiet.{Keeps}
use fresh_core_native.Scheduler.{Turn, ready, signal, run_scheduler}
use fresh_core_native.Scheduler.Patience.Turns.{run_scheduler_waits}
use fresh_core_native.Interleaving.{
  preparing, joining, Daemon, entering, in_poll, alsa_round, watching_on,
}
use fresh_core_native.Interleaving
use fresh_core_native.Audio.Threads.{start_polling}
use fresh_core_native.Tests.Device.{device}

abbrev three_ticks : List Turn
three_ticks = ready (true ∷ []) ∷ ready (true ∷ true ∷ []) ∷ signal ∷ []

run_scheduler_waits_example :
    Keeps initial (run_scheduler ⦃env = device⦄ 4097 three_ticks initial).1
run_scheduler_waits_example =
    run_scheduler_waits ⦃env = device⦄ 4097 three_ticks initial (omega arith)

-- After StartPolling, which falls back to PollLoop on this device.
abbrev started : Sys
started = (start_polling ⦃env = device⦄ initial).1

abbrev at_start : Daemon
at_start = record { sys = started; phase = preparing; audio = entering polling }

abbrev in_loop : Daemon
in_loop = record {
  sys = (poll_loop ⦃env = device⦄ [] started).1;
  phase = preparing;
  audio = Interleaving.polling no_call;
}

abbrev stopped_sys : Sys
stopped_sys = record initial { mic = record initial.mic { running = false; thread = some alsa } }

-- main waits, and the thread is in poll.
abbrev waiting_main : Daemon
waiting_main = record { sys = stopped_sys; phase = joining; audio = in_poll 1 }

abbrev after_poll : Daemon
after_poll = record {
  sys = (alsa_round ⦃env = device⦄ 1 timed_out stopped_sys).1;
  phase = joining;
  audio = watching_on ⦃env = device⦄ (alsa_round ⦃env = device⦄ 1 timed_out stopped_sys).0;
}
