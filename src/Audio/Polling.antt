-- ===== src/Audio/Polling.antt =====
-- audio/mic_fixer.cpp: PollLoop.
pub mod Muting
pub mod Isolation
use fresh_core_native.Prelude.{
  ℕ, zero, suc, Bytes, bytes, contains, Bool, true, false, not, ◌||◌, List, [], ◌∷◌, if◌then◌else◌,
}
use fresh_core_native.Os.{Env, Call, info, warning}
use fresh_core_native.Sys.Monad.{St, pure, perform, ◌>>=◌, ◌>>◌}
use fresh_core_native.Logging.{log}
use fresh_core_native.Audio.Commands.{exec_command, discover_tinymix}
use fresh_core_native.Audio.Routes.{apply_pre_init, apply_mic_fix, show_notification}

-- The local variables of the loop.
pub record CallState : Type 0 where
  pub active : Bool
  pub pre_init : Bool

abbrev pub no_call : CallState
no_call = record { active = false; pre_init = false }

-- The branch that a state of the audio service takes.
pub data AudioMode : Type 0 where
  ringtone connected other : AudioMode

unfoldable pub mode_of : Bytes → AudioMode
unfolding bytes contains
mode_of state =
    if contains (bytes "MODE_RINGTONE") state || contains (bytes "mMode=1") state
    then ringtone
    else if contains (bytes "MODE_IN_CALL") state
        || contains (bytes "MODE_IN_COMMUNICATION") state
        || contains (bytes "mMode=2") state
        || contains (bytes "mMode=3") state
    then connected
    else other

abbrev pub mode_command : Bytes
mode_command = bytes "timeout 2 dumpsys audio 2>/dev/null | grep -m 1 -i 'mMode='"

-- A round of the loop, with the values that its reads of g_running give: the test of the while, and
-- the tests while it sleeps, which are false behind the end of the list.
pub record Round : Type 0 where
  pub running : Bool
  pub asleep : List Bool

-- `ended`: the loop has ended. `waiting`: it runs on behind the last round.
pub data LoopEnd : Type 0 where
  ended waiting : LoopEnd

module _ ⦃env : Env⦄ where
  unfoldable pub react : AudioMode → CallState → St CallState
  react ringtone m =
      if not m.pre_init
      then (do
        log info "RINGTONE DETECTED! Powering on Audio Hardware early..." []
        apply_pre_init
        pure (record m { pre_init = true }))
      else pure m
  react connected m =
      if not m.active
      then (do
        log info "CALL CONNECTED! Aggressively fully re-initializing Handset Mic route!" []
        show_notification
        apply_pre_init
        apply_mic_fix
        log info "Hardware Primed and Ready!" []
        pure (record m { active = true }))
      else pure m
  react other m =
      if m.active || m.pre_init
      then (do log info "Call ended. Audio routes returning to idle state." []; pure no_call)
      else pure m

  unfoldable pub poll_mode : CallState → St CallState
  unfolding react mode_of
  poll_mode m = do state ← exec_command mode_command; react (mode_of state) m

  -- for (int i = 0; i < 30 && g_running; ++i)
  unfoldable pub sleep_rounds : ℕ → List Bool → St (Unit {0})
  sleep_rounds zero reads = pure tt
  sleep_rounds (suc i) [] = pure tt
  sleep_rounds (suc i) (false ∷ reads) = pure tt
  sleep_rounds (suc i) (true ∷ reads) = do
    perform (Call.sleep_for 100) (λ h. tt)
    sleep_rounds i reads

  unfoldable pub poll_rounds : CallState → List Round → St LoopEnd
  unfolding poll_mode sleep_rounds
  poll_rounds m [] = pure waiting
  poll_rounds m (r ∷ rounds) =
      if r.running
      then (do m' ← poll_mode m; sleep_rounds 30 r.asleep; poll_rounds m' rounds)
      else pure ended

  unfoldable pub poll_loop : List Round → St LoopEnd
  unfolding poll_rounds
  poll_loop rounds = do
    perform Call.setpriority (λ h. tt)
    found ← discover_tinymix
    if found then pure tt else log warning "tinymix not found in PATH! Using default." []
    log info "MicFix Engine started. Polling call state reliably at low priority." []
    poll_rounds no_call rounds
