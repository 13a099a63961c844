-- ===== src/Interleaving/Invariant.antt =====
-- The invariant of the two threads, and what keeps it.
use fresh_core_native.Prelude.{ℕ, ◌≡◌, refl, ap, ◌∙◌, true, false, none, some, arith}
use fresh_core_native.Sys.{Sys, Mic, Thread}
use fresh_core_native.Sys.Monad.{Emits, Emits-weaken, Emits-IsPreorder}
use fresh_core_native.Sys.Frame.{MayRemove, MayRemove-map, Steady-IsPreorder, Frame-IsPreorder}
use fresh_core_native.Cache.Roots.{IsCleanable}
use fresh_core_native.Audio.Isolation.{Apart, Apart-IsPreorder}
use fresh_core_native.Audio.Polling.{CallState}
use fresh_core_native.Audio.Threads.Invariant.{InStep, idle, started}
use fresh_core_native.Interleaving.{
  AudioThread, entering, polling, watching, in_poll, closing, finished, Phase, preparing, serving,
  joining, joined, Daemon,
}
use fresh_core_native.Interleaving.Moves.{◌⟶*◌, rest, ⟶*_trans, ⟶*-same}

-- g_running, the thread's handle and its loop, in each phase of main.
abbrev pub InPhase : Phase → Mic → AudioThread → Type 0
InPhase preparing m a = (m.running ≡ true) × ((t : Thread) × (m.thread ≡ some t))
InPhase serving m a = (m.running ≡ true) × ((t : Thread) × (m.thread ≡ some t))
InPhase joining m a = (m.running ≡ false) × ((t : Thread) × (m.thread ≡ some t))
InPhase joined m a = (m.running ≡ false) × (m.thread ≡ none) × (a ≡ finished)

-- What has been done since the scheduler's loop began.
pub record Since (start : Sys) (d : Daemon) : Type 0 where
  pub removes : Emits (MayRemove IsCleanable) start d.sys
  pub config : d.sys.config ≡ start.config
  pub engine : start.engine ⟶* d.sys.engine
  pub in_phase : InPhase d.phase d.sys.mic d.audio

-- Of a step from `s` to `t`, all but the phase.
pub record Continues (s t : Sys) : Type 0 where
  pub removes : Emits (MayRemove IsCleanable) s t
  pub config : t.config ≡ s.config
  pub engine : s.engine ⟶* t.engine

pub none-IsCleanable :
    {s t : Sys} → Emits (MayRemove (λ _. ⊥)) s t → Emits (MayRemove IsCleanable) s t
none-IsCleanable = Emits-weaken (MayRemove-map (λ path none. absurd none))

pub Apart-Continues : {s t : Sys} → Apart s t → Continues s t
Apart-Continues h = record {
  removes = none-IsCleanable h.emits;
  config = ap (λ (x : Sys). x.config) h.rest;
  engine = ⟶*-same (ap (λ (x : Sys). x.engine) h.rest);
}

pub Apart-running : {s t : Sys} → Apart s t → t.mic.running ≡ s.mic.running
Apart-running h = ap (λ (x : Sys). x.mic.running) h.rest

pub Apart-thread : {s t : Sys} → Apart s t → t.mic.thread ≡ s.mic.thread
Apart-thread h = ap (λ (x : Sys). x.mic.thread) h.rest

-- The thread goes on in every phase but the last.
pub phase_apart :
    {s t : Sys} {a : AudioThread} (b : AudioThread) (p : Phase)
    → Apart s t
    → ((a ≡ finished) → ⊥)
    → InPhase p s.mic a
    → InPhase p t.mic b
phase_apart b preparing h ne (r, (t, e)) = (Apart-running h ∙ r, (t, Apart-thread h ∙ e))
phase_apart b serving h ne (r, (t, e)) = (Apart-running h ∙ r, (t, Apart-thread h ∙ e))
phase_apart b joining h ne (r, (t, e)) = (Apart-running h ∙ r, (t, Apart-thread h ∙ e))
phase_apart b joined h ne (r, e, done) = absurd (ne done)

pub after :
    {start : Sys} {d e : Daemon}
    → Since start d
    → Continues d.sys e.sys
    → InPhase e.phase e.sys.mic e.audio
    → Since start e
after {start} {d} {e} since c p = record {
  removes = Emits-IsPreorder.trans start d.sys e.sys since.removes c.removes;
  config = c.config ∙ since.config;
  engine = ⟶*_trans since.engine c.engine;
  in_phase = p;
}

pub polling_ne : (m : CallState) → (polling m ≡ finished) → ⊥
polling_ne m e = cc

pub closing_ne : (closing ≡ finished) → ⊥
closing_ne e = cc

pub entering_ne : (t : Thread) → (entering t ≡ finished) → ⊥
entering_ne t e = cc

pub in_poll_ne : (n : ℕ) → (in_poll n ≡ finished) → ⊥
in_poll_ne n e = cc

pub watching_ne : (n : ℕ) → (watching n ≡ finished) → ⊥
watching_ne n e = cc

-- The thread leaves its loop only where main waits for it.
pub phase_ends :
    {a : AudioThread} (b : AudioThread) (p : Phase) (m : Mic)
    → m.running ≡ false
    → ((a ≡ finished) → ⊥)
    → InPhase p m a
    → InPhase p m b
phase_ends b preparing m off ne (r, t) = ground (arith, off, r)
phase_ends b serving m off ne (r, t) = ground (arith, off, r)
phase_ends b joining m off ne h = h
phase_ends b joined m off ne (r, e, done) = absurd (ne done)

pub same_sys : (s : Sys) → Continues s s
same_sys s = record { removes = Emits-IsPreorder.same s; config = refl; engine = rest }

pub started_phase :
    (m : Mic) (a : AudioThread) → InStep m → m.running ≡ true → InPhase preparing m a
started_phase _ a idle on = ground (arith, on)
started_phase _ a (started {t = t}) on = (refl, (t, refl))
