-- ===== src/Power/Screen.antt =====
-- android/power_state.cpp: whether the screen is on.
pub mod Calls
use fresh_core_native.Prelude.{
  Bytes, bytes, contains, is_empty, ℤ, pos, ltb_ℤ, Bool, true, false, not, ◌&&◌, ◌||◌, Option, none,
  some, List, [], ◌∷◌, if◌then◌else◌,
}
use fresh_core_native.Os.{Env, Call, info, warning, text}
use fresh_core_native.Streams.{stream_int, fgets}
use fresh_core_native.Sys.{Sys, Screen}
use fresh_core_native.Sys.Monad.{St, pure, gets, modify, perform, ◌>>=◌, ◌>>◌}
use fresh_core_native.Logging.{log}

backlight_paths : List Bytes
unfolding bytes
backlight_paths =
    bytes "/sys/class/backlight/panel0-backlight/brightness"
    ∷ bytes "/sys/class/leds/lcd-backlight/brightness"
    ∷ bytes "/sys/class/backlight/intel_backlight/brightness"
    ∷ bytes "/sys/class/backlight/acpi_video0/brightness"
    ∷ []

abbrev pub wakefulness_command : Bytes
wakefulness_command = bytes "dumpsys power 2>/dev/null | grep -m 1 'mWakefulness='"

abbrev set_backlight : Bytes → Sys → Sys
set_backlight path s = record s { screen = record s.screen { backlight_path = path } }

abbrev set_unsupported : Sys → Sys
set_unsupported s = record s { screen = record s.screen { supported = false } }

-- The last line of the fallback: the device sleeps or dozes.
unfoldable pub is_asleep : Bytes → Bool
unfolding contains bytes
is_asleep result = contains (bytes "Asleep") result || contains (bytes "Dozing") result

abbrev first_line_or_empty : Option Bytes → Bytes
first_line_or_empty none = []
first_line_or_empty (some output) = elim (fgets output) [ none ↦ [] | some line ↦ line ]

abbrev brightness_of : Option Bytes → Option ℤ
brightness_of none = none
brightness_of (some content) = stream_int content

module _ ⦃env : Env⦄ where
  -- One round of the loop over the paths, with the rest of the loop.
  detect_node : Bytes → Option Bytes → St (Unit {0}) → St (Unit {0})
  detect_node path none rest = rest
  detect_node path (some _) rest = do
    modify (set_backlight path)
    log info "Screen state fallback node found: %s" (text path ∷ [])

  detect_loop : List Bytes → St (Unit {0})
  unfolding detect_node
  detect_loop [] = do
    log warning "No known screen brightness sysfs node found. Screen detection may be unsupported."
        []
    modify set_unsupported
  detect_loop (path ∷ paths) = do
    file ← perform (Call.read_file path) (λ h. env.file h path)
    detect_node path file (detect_loop paths)

  detect_screen_node : St (Unit {0})
  unfolding detect_loop backlight_paths
  detect_screen_node = detect_loop backlight_paths

  -- The layered reading: the brightness, and `none` where there is none to read.
  read_brightness : Bytes → St (Option ℤ)
  read_brightness path = if is_empty path then pure none else (do
    file ← perform (Call.read_file path) (λ h. env.file h path)
    pure (brightness_of file))

  ask_dumpsys : St Bool
  ask_dumpsys = do
    output ← perform (Call.popen wakefulness_command) (λ h. env.pipe h wakefulness_command)
    pure (not (is_asleep (first_line_or_empty output)))

  screen_from : Option ℤ → St Bool
  unfolding ask_dumpsys
  screen_from (some brightness) = pure (ltb_ℤ (pos 0) brightness)
  screen_from none = ask_dumpsys

  unfoldable pub is_screen_on : St Bool
  unfolding detect_screen_node read_brightness screen_from
  is_screen_on = do
    screen ← gets (λ s. s.screen)
    if is_empty screen.backlight_path && screen.supported then detect_screen_node else pure tt
    path ← gets (λ s. s.screen.backlight_path)
    brightness ← read_brightness path
    screen_from brightness
