-- ===== src/Power/Battery.antt =====
-- power/battery_monitor.cpp: whether the battery allows maintenance.
pub mod Calls
use fresh_core_native.Prelude.{
  Bytes, bytes, bytes_eq, is_empty, ℤ, ltb_ℤ, Bool, true, false, ◌||◌, Option, none, some, List, [],
  ◌∷◌, ◌++◌, if◌then◌else◌,
}
use fresh_core_native.Os.{Env, Call, info, warning, text, int}
use fresh_core_native.Streams.{stream_int, stream_word}
use fresh_core_native.Sys.{Sys, Battery}
use fresh_core_native.Sys.Monad.{St, pure, gets, modify, perform, ◌>>=◌, ◌>>◌}
use fresh_core_native.Logging.{log}

battery_bases : List Bytes
unfolding bytes
battery_bases =
    bytes "/sys/class/power_supply/battery"
    ∷ bytes "/sys/class/power_supply/bms"
    ∷ bytes "/sys/class/power_supply/main"
    ∷ []

abbrev capacity_of : Bytes → Bytes
capacity_of base = base ++ bytes "/capacity"

abbrev status_of : Bytes → Bytes
status_of base = base ++ bytes "/status"

abbrev set_battery : Bytes → Sys → Sys
set_battery base s = record s {
  battery = record { capacity_path = capacity_of base; status_path = status_of base };
}

unfoldable pub is_charging_status : Bytes → Bool
unfolding bytes_eq bytes
is_charging_status status = bytes_eq status (bytes "Charging") || bytes_eq status (bytes "Full")

abbrev word_of : Option Bytes → Option Bytes
word_of none = none
word_of (some content) = stream_word content

abbrev int_of : Option Bytes → Option ℤ
int_of none = none
int_of (some content) = stream_int content

abbrev charging_of : Option Bytes → Bool
charging_of none = false
charging_of (some status) = is_charging_status status

module _ ⦃env : Env⦄ where
  detect_base : Bytes → Option Bytes → St (Unit {0}) → St (Unit {0})
  detect_base base none rest = rest
  detect_base base (some _) rest = do
    modify (set_battery base)
    log info "Battery nodes found at: %s" (text base ∷ [])

  detect_loop : List Bytes → St (Unit {0})
  unfolding detect_base
  detect_loop [] = log warning "No known battery sysfs node found." []
  detect_loop (base ∷ bases) = do
    file ← perform (Call.read_file (capacity_of base)) (λ h. env.file h (capacity_of base))
    detect_base base file (detect_loop bases)

  detect_battery_nodes : St (Unit {0})
  unfolding detect_loop battery_bases
  detect_battery_nodes = detect_loop battery_bases

  judge_capacity : Option ℤ → St Bool
  judge_capacity none = pure false
  judge_capacity (some capacity) = do
    minimum ← gets (λ s. s.config.minimum_battery_percent)
    if ltb_ℤ minimum capacity then pure true else (do
      log warning "Aborting: Battery at %d%%, below minimum threshold of %d%%."
          (int capacity ∷ int minimum ∷ [])
      pure false)

  -- The readings, once the nodes are known.
  judge_battery : Battery → St Bool
  unfolding judge_capacity
  judge_battery nodes = do
    status ← perform (Call.read_file nodes.status_path) (λ h. env.file h nodes.status_path)
    if charging_of (word_of status) then pure true else (do
      capacity ← perform (Call.read_file nodes.capacity_path) (λ h. env.file h nodes.capacity_path)
      judge_capacity (int_of capacity))

  unfoldable pub is_battery_safe : St Bool
  unfolding detect_battery_nodes judge_battery
  is_battery_safe = do
    known ← gets (λ s. s.battery)
    if is_empty known.capacity_path then detect_battery_nodes else pure tt
    nodes ← gets (λ s. s.battery)
    if is_empty nodes.capacity_path then pure false else judge_battery nodes
