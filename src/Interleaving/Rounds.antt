-- ===== src/Interleaving/Rounds.antt =====
-- The rounds of the two audio loops are those of the loops of audio/mic_fixer.cpp, and leave the rest
-- of the daemon alone.
use fresh_core_native.Prelude.{ℕ, length, ◌≡◌, refl, Bool, true, Option, none, some, List, [], ◌∷◌}
use fresh_core_native.Os.{Env}
use fresh_core_native.Sys.{Sys}
use fresh_core_native.Sys.Monad.{St, pure, Runs, Runs-pure, Runs-bind, ◌>>=◌}
use fresh_core_native.Audio.Isolation.{Apart, Apart-IsPreorder, apart}
use fresh_core_native.Audio.Polling.{CallState, Round, LoopEnd, ended, poll_rounds}
use fresh_core_native.Audio.Polling.Isolation.{poll_mode-Apart, sleep_rounds-Apart}
use fresh_core_native.Audio.Alsa.{
  AlsaTurn, stopping, poll_failed, timed_out, readable, masks_in, alsa_turns,
}
use fresh_core_native.Audio.Alsa.Isolation.{handle_events-Apart}
use fresh_core_native.Interleaving.{poll_round, alsa_round}

module _ ⦃env : Env⦄ where
  poll_if :
      (b : Bool) (m : CallState) (r : Round) (rounds : List Round) (s : Sys)
      → r.running ≡ b
      → b ≡ true
      → poll_rounds m (r ∷ rounds) s ≡ (poll_round r.asleep m >>= λ m'. poll_rounds m' rounds) s
  unfolding poll_rounds poll_round ◌>>=◌ pure
  poll_if b m r rounds s e h = rw (e, h) refl

  -- PollLoop goes round by round, as long as its test of g_running holds.
  poll_rounds-poll_round :
      (m : CallState) (r : Round) (rounds : List Round) (s : Sys)
      → r.running ≡ true
      → poll_rounds m (r ∷ rounds) s ≡ (poll_round r.asleep m >>= λ m'. poll_rounds m' rounds) s
  poll_rounds-poll_round m r rounds s e = poll_if true m r rounds s e refl

  pub alsa_next : List AlsaTurn → Option ℕ → St LoopEnd
  alsa_next turns none = pure ended
  alsa_next turns (some n) = alsa_turns n turns

  -- AlsaInotifyLoop goes turn by turn, until a turn leaves it.
  alsa_turns-alsa_round :
      (n : ℕ) (turn : AlsaTurn) (turns : List AlsaTurn) (s : Sys)
      → alsa_turns n (turn ∷ turns) s ≡ (alsa_round n turn >>= alsa_next turns) s
  unfolding alsa_turns alsa_round alsa_next ◌>>=◌ pure
  alsa_turns-alsa_round n stopping turns s = refl
  alsa_turns-alsa_round n poll_failed turns s = refl
  alsa_turns-alsa_round n timed_out turns s = refl
  alsa_turns-alsa_round n (readable none) turns s = refl
  alsa_turns-alsa_round n (readable (some [])) turns s = refl
  alsa_turns-alsa_round n (readable (some (b ∷ buffer))) turns s = refl

  pub poll_round-Apart : (asleep : List Bool) (m : CallState) → Runs Apart (poll_round asleep m)
  unfolding poll_round
  poll_round-Apart asleep m =
      Runs-bind _ _ (poll_mode-Apart m)
        λ m'. Runs-bind _ _ (sleep_rounds-Apart 30 asleep) λ _. Runs-pure m'

  pub alsa_round-Apart : (n : ℕ) (turn : AlsaTurn) → Runs Apart (alsa_round n turn)
  unfolding alsa_round
  alsa_round-Apart n stopping = Runs-pure _
  alsa_round-Apart n poll_failed = search apart depth 10
  alsa_round-Apart n timed_out = search apart depth 10
  alsa_round-Apart n (readable none) = search apart depth 10
  alsa_round-Apart n (readable (some [])) = search apart depth 10
  alsa_round-Apart n (readable (some (b ∷ buffer))) = Runs-bind _ _ (search apart) λ _.
      Runs-bind _ _ (search apart) λ _.
        Runs-bind _ _ (handle_events-Apart n (masks_in (length (b ∷ buffer)) (b ∷ buffer)))
          λ k. Runs-pure (some k)
