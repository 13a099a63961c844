-- ===== src/Tests/Audio.antt =====
-- The theorems on the audio thread at concrete inputs.
use fresh_core_native.Prelude.{List, ◌≡◌, true, false, some, [], ◌∷◌, map, length, arith}
use fresh_core_native.Sys.{initial}
use fresh_core_native.Audio.Commands.{read_output}
use fresh_core_native.Audio.Commands.Output.{IsText, read_output-IsText}
use fresh_core_native.Audio.Routes.Line.{muted, line}
use fresh_core_native.Audio.Polling.{no_call, ringtone, connected, react, poll_mode, sleep_rounds}
use fresh_core_native.Audio.Polling.Muting.{
  Agrees, first, next, Moves, next_state, next_line, state_of, reacts, react-Moves, polling-Agrees,
  reacts_waiting_call,
}
use fresh_core_native.Audio.Alsa.{
  AlsaTurn, stopping, timed_out, readable, masks_in, handle_events, alsa_inotify_loop,
}
use fresh_core_native.Audio.Alsa.Notifications.{Posts}
use fresh_core_native.Audio.Alsa.Run.{masks_read, alsa_inotify_loop-Posts}
use fresh_core_native.Audio.Alsa.Events.{Event, FitsEvent, buffer_of, masks_in-buffer_of}
use fresh_core_native.Audio.Alsa.Streams.{
  Counts, stream_count, first_openings, handle_events-Counts,
}
use fresh_core_native.Tests.Device.{device}

react-Moves_example :
    Moves
      (next_state ringtone no_call)
      (next_line ringtone no_call)
      (react ⦃env = device⦄ ringtone no_call)
react-Moves_example = react-Moves ⦃env = device⦄ ringtone no_call

polling-Agrees_example : Agrees (poll_mode ⦃env = device⦄ no_call initial).0 (
    line
      (sleep_rounds ⦃env = device⦄ 30
        (true ∷ [])
        (poll_mode ⦃env = device⦄ no_call initial).1).1.calls)
polling-Agrees_example = polling-Agrees ⦃env = device⦄ _ _ (next (true ∷ []) first)

reacts_waiting_call_example :
    line (reacts ⦃env = device⦄ (ringtone ∷ connected ∷ []) (state_of true false) initial).1.calls
    ≡ some muted
reacts_waiting_call_example = reacts_waiting_call ⦃env = device⦄ (connected ∷ []) (tt, tt) initial

handle_events-Counts_example :
    Counts
      (stream_count 0 (32 ∷ 32 ∷ 16 ∷ []))
      (first_openings 0 (32 ∷ 32 ∷ 16 ∷ []))
      (handle_events ⦃env = device⦄ 0 (32 ∷ 32 ∷ 16 ∷ []))
handle_events-Counts_example = handle_events-Counts ⦃env = device⦄ 0 (32 ∷ 32 ∷ 16 ∷ [])

abbrev an_opening : Event
an_opening = record { wd = 1; mask = 32; cookie = 0; name = 97 ∷ 0 ∷ [] }

an_opening-FitsEvent : FitsEvent an_opening
an_opening-FitsEvent = record { mask = omega arith; len = omega arith }

abbrev some_turns : List AlsaTurn
some_turns = timed_out ∷ readable (some (buffer_of (an_opening ∷ []))) ∷ stopping ∷ []

alsa_inotify_loop-Posts_example :
    Posts (first_openings 0 (masks_read some_turns)) (alsa_inotify_loop ⦃env = device⦄ some_turns)
alsa_inotify_loop-Posts_example = alsa_inotify_loop-Posts ⦃env = device⦄ some_turns

masks_in-buffer_of_example :
    masks_in (length (buffer_of (an_opening ∷ []))) (buffer_of (an_opening ∷ []))
    ≡ map (λ (e : Event). e.mask) (an_opening ∷ [])
masks_in-buffer_of_example = masks_in-buffer_of (an_opening ∷ []) (an_opening-FitsEvent, tt)

ok-IsText : IsText (111 ∷ 107 ∷ [])
ok-IsText = (λ e. omega (arith, e), (λ e. omega (arith, e), tt))

read_output-IsText_example : read_output (some (111 ∷ 107 ∷ [])) ≡ 111 ∷ 107 ∷ []
read_output-IsText_example = read_output-IsText (111 ∷ 107 ∷ []) ok-IsText
