-- ===== src/Interleaving/Shutdown.antt =====
-- How the daemon stops, whichever thread goes first.
use fresh_core_native.Prelude.{ℕ, suc, ◌+◌, ◌≤◌, ◌≡◌, arith}
use fresh_core_native.Os.{Env}
use fresh_core_native.Sys.{Sys}
use fresh_core_native.Cache.Analyzer.Order.{Sorts}
use fresh_core_native.Sys.{Thread, alsa}
use fresh_core_native.Interleaving.{
  AudioThread, entering, polling, watching, in_poll, closing, finished, Phase, preparing, serving,
  joining, joined, Daemon, Step,
}
use fresh_core_native.Interleaving.Invariant.{InPhase, Since}

-- The steps that are left once main has stopped the thread.
abbrev pub loop_left : AudioThread → ℕ
loop_left (entering Thread.polling) = 2
loop_left (entering alsa) = 3
loop_left (polling m) = 1
loop_left (watching n) = 2
loop_left (in_poll n) = 3
loop_left closing = 1
loop_left finished = 0

abbrev steps_left : Phase → AudioThread → ℕ
steps_left joining a = 1 + loop_left a
steps_left _ a = 0

abbrev IsStopping : Phase → Type 0
IsStopping preparing = ⊥
IsStopping serving = ⊥
IsStopping _ = Unit

module _ ⦃env : Env⦄ (fuel : ℕ) where
  -- A run of `n` steps.
  pub data Run (d : Daemon) : ℕ → Daemon → Type 0 where
    still : Run d 0 d
    next : {n : ℕ} {e f : Daemon} → Run d n e → Step fuel e f → Run d (suc n) f

  -- What a step takes from the steps that are left.
  record Advances (d e : Daemon) : Type 0 where
    stopping : IsStopping e.phase
    fewer : 1 + steps_left e.phase e.audio ≤ steps_left d.phase d.audio

  -- A step of the audio thread while main waits in the join.
  advance :
      {s t : Sys} {a b : AudioThread} (p : Phase)
      → ((a ≡ finished) → ⊥)
      → IsStopping p
      → InPhase p s.mic a
      → 1 + loop_left b ≤ loop_left a
      → Advances
          (record { sys = s; phase = p; audio = a })
          (record { sys = t; phase = p; audio = b })
  advance preparing ne stopping h fewer = absurd stopping
  advance serving ne stopping h fewer = absurd stopping
  advance joining ne stopping h fewer = record { stopping = tt; fewer = omega (arith, fewer) }
  advance joined ne stopping h fewer = absurd (ne h.2)

  -- A run that ends behind the join.
  abbrev pub Joins : Daemon → Type 0
  Joins d = (n : ℕ) × (s : Sys) × Run d n (record { sys = s; phase = joined; audio = finished })

  module _ (sorts : Sorts env.sort) (start : Sys) where
    record Bounded (n : ℕ) (d e : Daemon) : Type 0 where
      since : Since start e
      stopping : IsStopping e.phase
      bound : n + steps_left e.phase e.audio ≤ steps_left d.phase d.audio
