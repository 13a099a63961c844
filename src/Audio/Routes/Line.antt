-- ===== src/Audio/Routes/Line.antt =====
-- What the commands for tinymix make of the line to the caller.
use mathlib.Core.List.{reverse, reverse-append}
use fresh_core_native.Prelude.{
  ◌≡◌, refl, sym, ◌∙◌, ap, arith, Bytes, bytes, String, starts_with, Option, none, some, List, [],
  ◌∷◌, ◌++◌, All, if◌then◌else◌,
}
use fresh_core_native.Os.{Env, Call, History, LogLevel, Arg}
use fresh_core_native.Os
use fresh_core_native.Sys.{Sys}
use fresh_core_native.Sys.Monad.{St, Runs, Emits, Emits-IsPreorder, ◌>>=◌, emits}
use fresh_core_native.Sys.Monad
use fresh_core_native.Logging.{log}
use fresh_core_native.Logging.Emissions.{IsHarmless, log_harmless}
use fresh_core_native.Audio.Commands.{
  tinymix_arguments, full_val, strip_newlines, exec_command, report_route, run_tinymix,
}
use fresh_core_native.Audio.Routes.{
  Route, voice_mute, voip_mute, power_routes, mic_routes, run_routes, apply_pre_init, apply_mic_fix,
  show_notification,
}

pub data Line : Type 0 where
  muted unmuted : Line

abbrev pub arguments : Route → Bytes
arguments r = tinymix_arguments r.control r.val1 r.val2 r.val3

-- What a command makes of the line, read from its end: the path of tinymix stands in front.
unfoldable pub effect_backwards : Bytes → Option Line
unfolding starts_with tinymix_arguments bytes
effect_backwards s =
    if starts_with (reverse (arguments (voice_mute (bytes "1")))) s
    then some muted
    else if starts_with (reverse (arguments (voice_mute (bytes "0")))) s
    then some unmuted
    else none

abbrev pub effect : Bytes → Option Line
effect command = effect_backwards (reverse command)

abbrev pub later : Option Line → Option Line → Option Line
later none old = old
later (some l) old = some l

-- The line after the newest command that sets it, if there was one.
abbrev pub line : History → Option Line
line [] = none
line (Os.popen command ∷ h) = later (effect command) (line h)
line (_ ∷ h) = line h

abbrev pub NoPopen : Call → Type 0
NoPopen (Os.popen command) = ⊥
NoPopen _ = Unit

line_call : (c : Call) (h : History) → NoPopen c → line (c ∷ h) ≡ line h
line_call c h n = ground (arith, n)

-- A route that sets the line to `o`, whatever path stands before its arguments.
abbrev RouteSets : Option Line → Route → Type 0
RouteSets o r = (front : Bytes) → effect_backwards (reverse (arguments r) ++ front) ≡ o

mute_sets : RouteSets (some muted) (voice_mute (bytes "1"))
unfolding effect_backwards starts_with tinymix_arguments bytes
mute_sets front = refl

unmute_sets : RouteSets (some unmuted) (voice_mute (bytes "0"))
unfolding effect_backwards starts_with tinymix_arguments bytes
unmute_sets front = refl

unmute_rest_set : All (RouteSets none) (voip_mute (bytes "0") ∷ [])
unfolding effect_backwards starts_with tinymix_arguments bytes
unmute_rest_set = (λ front. refl, tt)

power_set : All (RouteSets none) (voip_mute (bytes "1") ∷ power_routes)
unfolding effect_backwards starts_with tinymix_arguments bytes
power_set = (
  λ front. refl,
  (
    λ front. refl,
    (
      λ front. refl,
      (λ front. refl, (λ front. refl, (λ front. refl, (λ front. refl, (λ front. refl, tt))))),
    ),
  ),
)

mic_set : All (RouteSets none) mic_routes
unfolding effect_backwards starts_with tinymix_arguments bytes
mic_set = (
  λ front. refl,
  (
    λ front. refl,
    (
      λ front. refl,
      (
        λ front. refl,
        (λ front. refl, (λ front. refl, (λ front. refl, (λ front. refl, (λ front. refl, tt))))),
      ),
    ),
  ),
)

effect_of_route :
    {o : Option Line} (path : Bytes) (r : Route) → RouteSets o r → effect (path ++ arguments r) ≡ o
effect_of_route path r h =
    ap effect_backwards (reverse-append path (arguments r)) ∙ h (reverse path)

line-append_none : (new h : History) → All NoPopen new → line (new ++ h) ≡ line h
line-append_none [] h n = refl
line-append_none (c ∷ new) h n = line_call c (new ++ h) n.0 ∙ line-append_none new h n.1

pub Emits-line : {s t : Sys} → Emits NoPopen s t → line t.calls ≡ line s.calls
Emits-line {s} e = ap line e.calls ∙ line-append_none e.new s.calls e.each

-- `m` leaves the line as `o` says, or as it was.
pub record Sets {A : Type 0} (o : Option Line) (m : St A) : Type 0 where
  pub at : (s : Sys) → line (m s).1.calls ≡ later o (line s.calls)

pub Sets-none : {A : Type 0} {m : St A} → Runs (Emits NoPopen) m → Sets none m
Sets-none h = record { at = λ s. Emits-line (h.at s) }

later_assoc : (o p q : Option Line) → later (later o p) q ≡ later o (later p q)
later_assoc none p q = refl
later_assoc (some l) p q = refl

pub Sets-bind :
    {A B : Type 0} {o p : Option Line} (m : St A) (f : A → St B)
    → Sets o m
    → ((a : A) → Sets p (f a))
    → Sets (later p o) (m >>= f)
unfolding ◌>>=◌
Sets-bind {o} {p} m f hm hf = record {
  at = λ s. (hf (m s).0).at (m s).1 ∙ ap (later p) (hm.at s) ∙ sym (later_assoc p o (line s.calls));
}

pub Sets-then :
    {A B : Type 0} {o : Option Line} (m : St A) (f : A → St B)
    → Runs (Emits NoPopen) m
    → ((a : A) → Sets o (f a))
    → Sets o (m >>= f)
unfolding ◌>>=◌
Sets-then {o} m f hm hf = record {
  at = λ s. (hf (m s).0).at (m s).1 ∙ ap (later o) (Emits-line (hm.at s));
}

pub Sets-last :
    {A B : Type 0} {o : Option Line} (m : St A) (f : A → St B)
    → Sets o m
    → ((a : A) → Runs (Emits NoPopen) (f a))
    → Sets o (m >>= f)
unfolding ◌>>=◌
Sets-last m f hm hf = record { at = λ s. Emits-line ((hf (m s).0).at (m s).1) ∙ hm.at s }

IsHarmless-NoPopen : (c : Call) → IsHarmless c → NoPopen c
IsHarmless-NoPopen (Os.popen command) h = absurd h
IsHarmless-NoPopen _ h = tt

module _ ⦃env : Env⦄ where
  pub log-NoPopen :
      (level : LogLevel) (format : String) (args : List Arg)
      → Runs (Emits NoPopen) (log level format args)
  log-NoPopen = log_harmless IsHarmless-NoPopen

  pub show_notification-NoPopen : Runs (Emits NoPopen) show_notification
  unfolding show_notification
  show_notification-NoPopen = search emits

  report_route-NoPopen :
      (control value output : Bytes) → Runs (Emits NoPopen) (report_route control value output)
  unfolding report_route
  report_route-NoPopen control value output = search (emits, log-NoPopen) depth 20

  pub exec_command-Sets :
      {o : Option Line} (command : Bytes) → effect command ≡ o → Sets o (exec_command command)
  unfolding exec_command ◌>>=◌ Monad.perform Monad.pure
  exec_command-Sets command e = record { at = λ s. ap (λ o. later o (line s.calls)) e }

  run_tinymix-Sets :
      {o : Option Line} (r : Route)
      → RouteSets o r
      → Sets o (run_tinymix r.control r.val1 r.val2 r.val3)
  unfolding run_tinymix
  run_tinymix-Sets r h = Sets-then _ _ (search emits) λ path.
      Sets-last _ _ (exec_command-Sets _ (effect_of_route path r h)) λ output.
        report_route-NoPopen r.control (full_val r.val1 r.val2 r.val3) (strip_newlines output)

  run_routes-Sets :
      (routes : List Route) → All (RouteSets none) routes → Sets none (run_routes routes)
  unfolding run_routes
  run_routes-Sets [] h = Sets-none (search emits)
  run_routes-Sets (r ∷ routes) h =
      Sets-bind _ _ (run_tinymix-Sets r h.0) λ _. run_routes-Sets routes h.1

  -- ApplyPreInit leaves the line muted, ApplyMicFix leaves it unmuted.
  pub apply_pre_init-Sets : Sets (some muted) apply_pre_init
  unfolding apply_pre_init run_routes
  apply_pre_init-Sets =
      Sets-bind _ _ (run_tinymix-Sets _ mute_sets)
        λ _. run_routes-Sets (voip_mute (bytes "1") ∷ power_routes) power_set

  pub apply_mic_fix-Sets : Sets (some unmuted) apply_mic_fix
  unfolding apply_mic_fix run_routes
  apply_mic_fix-Sets = Sets-bind _ _ (run_routes-Sets mic_routes mic_set) λ _.
      Sets-bind _ _ (run_tinymix-Sets _ unmute_sets)
        λ _. run_routes-Sets (voip_mute (bytes "0") ∷ []) unmute_rest_set
