-- ===== src/Power/Activity.antt =====
-- android/activity_state.cpp: what runs in the foreground.
pub mod Calls
use fresh_core_native.Prelude.{
  Bytes, bytes, contains, Bool, true, false, ◌||◌, Option, none, some, List, [], ◌∷◌, if◌then◌else◌,
}
use fresh_core_native.Os.{Env, Call}
use fresh_core_native.Streams.{fgets}
use fresh_core_native.Sys.Monad.{St, pure, perform, ◌>>=◌, ◌>>◌}
use fresh_core_native.Power.Screen.{is_screen_on}

abbrev pub focus_command : Bytes
focus_command = bytes "dumpsys window | grep -m 1 'mCurrentFocus'"

heavy_apps : List Bytes
unfolding bytes
heavy_apps =
    bytes "whatsapp"
    ∷ bytes "facebook"
    ∷ bytes "instagram"
    ∷ bytes "tiktok"
    ∷ bytes "snapchat"
    ∷ bytes "telegram"
    ∷ bytes "youtube"
    ∷ bytes "camera"
    ∷ bytes "pubg"
    ∷ bytes "callofduty"
    ∷ bytes "genshin"
    ∷ bytes "discord"
    ∷ bytes "netflix"
    ∷ bytes "maps"
    ∷ bytes "chrome"
    ∷ bytes "viber"
    ∷ []

contains_any : List Bytes → Bytes → Bool
unfolding contains
contains_any [] s = false
contains_any (app ∷ apps) s = contains app s || contains_any apps s

-- The first line of the pipe satisfies the test.
abbrev line_has : (Bytes → Bool) → Option Bytes → Bool
line_has test none = false
line_has test (some output) = elim (fgets output) [ none ↦ false | some line ↦ test line ]

module _ ⦃env : Env⦄ where
  unfoldable pub is_package_foreground : Bytes → St Bool
  is_package_foreground package_name = do
    output ← perform (Call.popen focus_command) (λ h. env.pipe h focus_command)
    pure (line_has (contains package_name) output)

  unfoldable pub is_heavy_foreground_activity : St Bool
  unfolding contains_any heavy_apps
  is_heavy_foreground_activity = do
    on ← is_screen_on
    if on
        then (do
          output ← perform (Call.popen focus_command) (λ h. env.pipe h focus_command)
          pure (line_has (contains_any heavy_apps) output))
        else pure false
