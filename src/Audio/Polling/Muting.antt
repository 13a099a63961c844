-- ===== src/Audio/Polling/Muting.antt =====
-- Whether the line is muted while PollLoop follows the calls.
use fresh_core_native.Prelude.{
  ◌≡◌, refl, sym, subst, ◌∙◌, ap, ℕ, zero, suc, bytes, starts_with, Bool, true, false, Option, none,
  some, List, [], ◌∷◌, All, if◌then◌else◌,
}
use fresh_core_native.Os.{Env}
use fresh_core_native.Sys.{Sys}
use fresh_core_native.Sys.Monad.{
  St, pure, Runs, Runs-pure, Runs-bind, Emits, Emits-IsPreorder, ◌>>=◌, emits,
}
use fresh_core_native.Audio.Commands.{tinymix_arguments, exec_command}
use fresh_core_native.Audio.Routes.Line.{
  Line, muted, unmuted, NoPopen, effect, effect_backwards, later, line, Sets, Sets-none, Sets-bind,
  Sets-then, Sets-last, Emits-line, log-NoPopen, show_notification-NoPopen, exec_command-Sets,
  apply_pre_init-Sets, apply_mic_fix-Sets,
}
use fresh_core_native.Audio.Polling.{
  CallState, no_call, AudioMode, ringtone, connected, other, mode_of, mode_command, react,
  poll_mode, sleep_rounds,
}

-- What the loop promises of the line: a call is heard when no ringtone preceded or interrupted it, and
-- a line that only rang is muted.
pub data Agrees : CallState → Option Line → Type 0 where
  resting : {l : Option Line} → Agrees (record { active = false; pre_init = false }) l
  rang : Agrees (record { active = false; pre_init = true }) (some muted)
  called : Agrees (record { active = true; pre_init = false }) (some unmuted)
  both : {l : Option Line} → Agrees (record { active = true; pre_init = true }) l

-- The next state, and what is made of the line.
abbrev pub next_state : AudioMode → CallState → CallState
next_state ringtone m = record m { pre_init = true }
next_state connected m = record m { active = true }
next_state other m = no_call

abbrev pub next_line : AudioMode → CallState → Option Line
next_line ringtone m = if m.pre_init then none else some muted
next_line connected m = if m.active then none else some unmuted
next_line other m = none

abbrev pub state_of : Bool → Bool → CallState
state_of a p = record { active = a; pre_init = p }

next-Agrees :
    (mode : AudioMode) (m : CallState) (l : Option Line)
    → Agrees m l
    → Agrees (next_state mode m) (later (next_line mode m) l)
next-Agrees ringtone _ _ resting = rang
next-Agrees ringtone _ _ rang = rang
next-Agrees ringtone _ _ called = both
next-Agrees ringtone _ _ both = both
next-Agrees connected _ _ resting = called
next-Agrees connected _ _ rang = both
next-Agrees connected _ _ called = called
next-Agrees connected _ _ both = both
next-Agrees other _ _ h = resting

-- `m` returns `a` and makes `o` of the line.
pub record Moves {A : Type 0} (a : A) (o : Option Line) (m : St A) : Type 0 where
  pub result : (s : Sys) → (m s).0 ≡ a
  pub sets : Sets o m

module _ ⦃env : Env⦄ where
  react_result :
      (mode : AudioMode) (a p : Bool) (s : Sys)
      → (react mode (state_of a p) s).0 ≡ next_state mode (state_of a p)
  unfolding react ◌>>=◌ pure
  react_result ringtone a true s = refl
  react_result ringtone a false s = refl
  react_result connected true p s = refl
  react_result connected false p s = refl
  react_result other true p s = refl
  react_result other false true s = refl
  react_result other false false s = refl

  connects-Sets : (p : Bool) → Sets (some unmuted) (react connected (state_of false p))
  unfolding react
  connects-Sets p = Sets-then _ _ (log-NoPopen _ _ _) λ _.
      Sets-then _ _ show_notification-NoPopen λ _. Sets-bind _ _ apply_pre_init-Sets λ _.
        Sets-last _ _ apply_mic_fix-Sets λ _. Runs-bind _ _ (log-NoPopen _ _ _) λ _. Runs-pure _

  react-Sets :
      (mode : AudioMode) (a p : Bool)
      → Sets (next_line mode (state_of a p)) (react mode (state_of a p))
  unfolding react
  react-Sets ringtone a true = Sets-none (Runs-pure _)
  react-Sets ringtone a false =
      Sets-then _ _ (log-NoPopen _ _ _) λ _. Sets-last _ _ apply_pre_init-Sets λ _. Runs-pure _
  react-Sets connected true p = Sets-none (Runs-pure _)
  react-Sets connected false p = connects-Sets p
  react-Sets other true p = Sets-then _ _ (log-NoPopen _ _ _) λ _. Sets-none (Runs-pure _)
  react-Sets other false true = Sets-then _ _ (log-NoPopen _ _ _) λ _. Sets-none (Runs-pure _)
  react-Sets other false false = Sets-none (Runs-pure _)

  -- PollLoop's reaction to a mode moves its variables as the table `next_state` says, and leaves the
  -- line as `next_line` says: muted by a first ringtone, unmuted when a call connects, else as it was.
  pub react-Moves :
      (mode : AudioMode) (m : CallState)
      → Moves (next_state mode m) (next_line mode m) (react mode m)
  react-Moves mode m = record {
    result = react_result mode m.active m.pre_init;
    sets = react-Sets mode m.active m.pre_init;
  }

  mode_command-none : effect mode_command ≡ none
  unfolding effect_backwards starts_with tinymix_arguments bytes
  mode_command-none = refl

  sleep_rounds-NoPopen : (n : ℕ) (reads : List Bool) → Runs (Emits NoPopen) (sleep_rounds n reads)
  unfolding sleep_rounds
  sleep_rounds-NoPopen zero reads = search emits
  sleep_rounds-NoPopen (suc i) [] = search emits
  sleep_rounds-NoPopen (suc i) (false ∷ reads) = search emits
  sleep_rounds-NoPopen (suc i) (true ∷ reads) =
      Runs-bind _ _ (search emits) λ _. sleep_rounds-NoPopen i reads

  -- One round of the loop, with the mode that the audio service reports.
  record Polled (m : CallState) (s : Sys) : Type 0 where
    mode : AudioMode
    state : (poll_mode m s).0 ≡ next_state mode m
    line : line (poll_mode m s).1.calls ≡ later (next_line mode m) (line s.calls)

  poll_mode-Polled : (m : CallState) (s : Sys) → Polled m s
  unfolding poll_mode ◌>>=◌
  poll_mode-Polled m s =
      let e = exec_command mode_command s in
      let r = react-Moves (mode_of e.0) m in
      record {
        mode = mode_of e.0;
        state = r.result e.1;
        line =
            r.sets.at e.1
            ∙ ap (later (next_line (mode_of e.0) m))
                ((exec_command-Sets {o = none} mode_command mode_command-none).at s);
      }

  -- The loop's variables and the system's state at the head of the while of PollLoop, from the first
  -- time on.
  pub data IsReached : CallState → Sys → Type 0 where
    first : {s : Sys} → IsReached no_call s
    next :
        {m : CallState} {s : Sys} (asleep : List Bool)
        → IsReached m s
        → IsReached (poll_mode m s).0 (sleep_rounds 30 asleep (poll_mode m s).1).1

  round-Agrees :
      (m : CallState) (s : Sys) (asleep : List Bool)
      → Agrees m (line s.calls)
      → Agrees (poll_mode m s).0 (line (sleep_rounds 30 asleep (poll_mode m s).1).1.calls)
  round-Agrees m s asleep h =
      let p = poll_mode-Polled m s in
      let e = Emits-line ((sleep_rounds-NoPopen 30 asleep).at (poll_mode m s).1) ∙ p.line in
      subst (λ m'. Agrees m' (line (sleep_rounds 30 asleep (poll_mode m s).1).1.calls))
        (sym p.state) (subst (Agrees _) (sym e) (next-Agrees p.mode m _ h))

  -- At every head of PollLoop's while, whatever the audio service reported: during a call without a
  -- ringtone the last command for "Voice Tx Mute" unmuted the line, and after a ringtone without a
  -- call it muted it.
  pub polling-Agrees : (m : CallState) (s : Sys) → IsReached m s → Agrees m (line s.calls)
  polling-Agrees _ _ first = resting
  polling-Agrees _ _ (next asleep r) = round-Agrees _ _ asleep (polling-Agrees _ _ r)

  -- The reactions to the modes that the audio service reports, one after the other.
  unfoldable pub reacts : List AudioMode → CallState → St CallState
  unfolding react
  reacts [] m = pure m
  reacts (mode ∷ modes) m = react mode m >>= reacts modes

-- The modes of a call that waits or goes on.
abbrev pub IsCallMode : AudioMode → Type 0
IsCallMode ringtone = Unit
IsCallMode connected = Unit
IsCallMode other = ⊥

module _ ⦃env : Env⦄ where
  both_stays :
      (modes : List AudioMode)
      → All IsCallMode modes
      → Sets none (reacts modes (state_of true true))
  unfolding reacts react ◌>>=◌ pure
  both_stays [] h = Sets-none (Runs-pure _)
  both_stays (ringtone ∷ modes) h = both_stays modes h.1
  both_stays (connected ∷ modes) h = both_stays modes h.1
  both_stays (other ∷ modes) h = absurd h.0

  Sets-at :
      {o : Option Line} (f : CallState → St CallState) (a : CallState)
      → Sets o (f a)
      → (b : CallState) → b ≡ a
      → Sets o (f b)
  Sets-at f a h b e = rw e h

  -- When a ringtone is reported during a call that began without one, the line of that call is muted,
  -- and it stays muted for as long as only ringtones and calls are reported.
  pub reacts_waiting_call :
      (modes : List AudioMode)
      → All IsCallMode modes
      → (s : Sys) → line (reacts (ringtone ∷ modes) (state_of true false) s).1.calls ≡ some muted
  unfolding reacts ◌>>=◌
  reacts_waiting_call modes h s =
      let r = react-Moves ringtone (state_of true false) in
      let t = react ringtone (state_of true false) s in
      (Sets-at (reacts modes) (state_of true true) (both_stays modes h) t.0 (r.result s)).at t.1
      ∙ r.sets.at s
