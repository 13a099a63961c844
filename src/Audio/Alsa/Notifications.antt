-- ===== src/Audio/Alsa/Notifications.antt =====
-- The notifications that the handlers of AlsaInotifyLoop post.
use fresh_core_native.Prelude.{
  ℕ, zero, suc, ◌+◌, ◌≡◌, refl, sym, ap, ◌∙◌, Bytes, bytes, String, Bool, true, false, List, [],
  ◌∷◌, ◌++◌, All, ◌==◌, arith, if◌then◌else◌,
}
use fresh_core_native.Os.{Env, Call, History, LogLevel, Arg}
use fresh_core_native.Os
use fresh_core_native.Sys.{Sys}
use fresh_core_native.Sys.Monad.{St, pure, Runs, Runs-bind, Emits, Emits-IsPreorder, ◌>>=◌, emits}
use fresh_core_native.Sys.Monad
use fresh_core_native.Logging.{log}
use fresh_core_native.Logging.Emissions.{IsHarmless, log_harmless}
use fresh_core_native.Audio.Commands.{exec_command, report_route, run_tinymix}
use fresh_core_native.Audio.Routes.{
  Route, pre_init_routes, run_routes, apply_pre_init, apply_mic_fix, show_notification,
}
use fresh_core_native.Audio.Alsa.{on_open}

abbrev pub NoSystem : Call → Type 0
NoSystem (Os.system command) = ⊥
NoSystem _ = Unit

abbrev command_of : Call → List Bytes → List Bytes
command_of (Os.system command) commands = command ∷ commands
command_of _ commands = commands

-- The commands that std::system ran, the newest first.
abbrev pub commands : History → List Bytes
commands [] = []
commands (c ∷ h) = command_of c (commands h)

command_of_none : (c : Call) (cs : List Bytes) → NoSystem c → command_of c cs ≡ cs
command_of_none (Os.system command) cs h = absurd h
command_of_none _ cs h = refl

commands-append_none : (new h : History) → All NoSystem new → commands (new ++ h) ≡ commands h
commands-append_none [] h n = refl
commands-append_none (c ∷ new) h n = command_of_none c _ n.0 ∙ commands-append_none new h n.1

-- The microphone's notification.
abbrev pub notification : Bytes
notification =
    bytes
      "cmd notification post -S bigtext -t \"FreshCore MicFix Active\" \"FreshCore\" \"Audio Chip Fully Reinitialized!\" >/dev/null 2>&1 &"

-- The commands `cs`, and then the notification `k` times.
abbrev pub posted : ℕ → List Bytes → List Bytes
posted zero cs = cs
posted (suc k) cs = notification ∷ posted k cs

posted-add : (j k : ℕ) (cs : List Bytes) → posted (j + k) cs ≡ posted j (posted k cs)
posted-add zero k cs = ap (λ n. posted n cs) (omega arith)
posted-add (suc j) k cs =
    let e : suc j + k ≡ suc (j + k) = omega arith in
    ap (λ n. posted n cs) e ∙ ap (λ l. notification ∷ l) (posted-add j k cs)

pub posted_then :
    (xs : List Bytes) {ys zs : List Bytes} (j k : ℕ)
    → ys ≡ posted j xs
    → zs ≡ posted k ys
    → zs ≡ posted (j + k) xs
posted_then xs j k h h' =
    let e : k + j ≡ j + k = omega arith in
    h' ∙ ap (posted k) h ∙ sym (posted-add k j xs) ∙ ap (λ n. posted n xs) e

IsHarmless-NoSystem : (c : Call) → IsHarmless c → NoSystem c
IsHarmless-NoSystem (Os.system command) h = absurd h
IsHarmless-NoSystem _ h = tt

-- `m` runs, by std::system, the notification `k` times and no other command.
pub record Posts {A : Type 0} (k : ℕ) (m : St A) : Type 0 where
  pub at : (s : Sys) → commands (m s).1.calls ≡ posted k (commands s.calls)

Emits-commands : {s t : Sys} → Emits NoSystem s t → commands t.calls ≡ commands s.calls
Emits-commands {s} e = ap commands e.calls ∙ commands-append_none e.new s.calls e.each

pub Posts-same : {A : Type 0} {j k : ℕ} {m : St A} → j ≡ k → Posts j m → Posts k m
Posts-same e h = record { at = λ s. h.at s ∙ ap (λ n. posted n (commands s.calls)) e }

pub Posts-none : {A : Type 0} {m : St A} → Runs (Emits NoSystem) m → Posts 0 m
Posts-none h = record { at = λ s. Emits-commands (h.at s) }

pub Posts-quiet :
    {A B : Type 0} {k : ℕ} (m : St A) (f : A → St B)
    → Runs (Emits NoSystem) m
    → ((a : A) → Posts k (f a))
    → Posts k (m >>= f)
unfolding ◌>>=◌
Posts-quiet {k} m f hm hf = record {
  at = λ s. (hf (m s).0).at (m s).1 ∙ ap (posted k) (Emits-commands (hm.at s));
}

pub Posts-last :
    {A B : Type 0} {k : ℕ} (m : St A) (f : A → St B)
    → Posts k m
    → ((a : A) → Runs (Emits NoSystem) (f a))
    → Posts k (m >>= f)
unfolding ◌>>=◌
Posts-last m f hm hf = record { at = λ s. Emits-commands ((hf (m s).0).at (m s).1) ∙ hm.at s }

Posts-if :
    {A : Type 0} {j k : ℕ} (b : Bool) (m n : St A)
    → Posts j m
    → Posts k n
    → Posts (if b then j else k) (if b then m else n)
Posts-if true m n hm hn = hm
Posts-if false m n hm hn = hn

module _ ⦃env : Env⦄ where
  pub log-NoSystem :
      (level : LogLevel) (format : String) (args : List Arg)
      → Runs (Emits NoSystem) (log level format args)
  log-NoSystem = log_harmless IsHarmless-NoSystem

  run_tinymix-NoSystem :
      (control val1 val2 val3 : Bytes) → Runs (Emits NoSystem) (run_tinymix control val1 val2 val3)
  unfolding run_tinymix exec_command report_route
  run_tinymix-NoSystem control val1 val2 val3 = search (emits, log-NoSystem) depth 30

  run_routes-NoSystem : (routes : List Route) → Runs (Emits NoSystem) (run_routes routes)
  unfolding run_routes
  run_routes-NoSystem [] = search emits
  run_routes-NoSystem (r ∷ routes) =
      Runs-bind _ _ (run_tinymix-NoSystem _ _ _ _) λ _. run_routes-NoSystem routes

  apply_pre_init-NoSystem : Runs (Emits NoSystem) apply_pre_init
  unfolding apply_pre_init
  apply_pre_init-NoSystem = run_routes-NoSystem pre_init_routes

  apply_mic_fix-NoSystem : Runs (Emits NoSystem) apply_mic_fix
  unfolding apply_mic_fix
  apply_mic_fix-NoSystem = search (emits, run_routes-NoSystem) depth 20

  show_notification-Posts : Posts 1 show_notification
  unfolding show_notification Monad.perform
  show_notification-Posts = record { at = λ s. refl }

  pub on_open-Posts : (n : ℕ) → Posts (if n == 1 then 1 else 0) (on_open n)
  unfolding on_open
  on_open-Posts n =
      Posts-if (n == 1) _ _
        (Posts-quiet _ _ (log-NoSystem _ _ _) λ _. Posts-quiet _ _ apply_pre_init-NoSystem λ _.
          Posts-quiet _ _ apply_mic_fix-NoSystem
            λ _. Posts-last _ _ show_notification-Posts λ _. log-NoSystem _ _ _)
        (Posts-none (log-NoSystem _ _ _))
