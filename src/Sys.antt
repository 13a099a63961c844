-- ===== src/Sys.antt =====
-- The daemon's global variables, each named after the file that declares it, and the monad of the
-- functions that read and write them and call the operating system.
pub mod Monad
pub mod Fuel
pub mod Frame
pub mod Still
pub mod Accounts
pub mod Finishes
pub mod Arrives
pub mod Logged
use fresh_core_native.Prelude.{ℕ, Bytes, bytes, Bool, true, false, Option, none, List, []}
use fresh_core_native.CacheData.{States}
use fresh_core_native.Os.{History}
use fresh_core_native.Config.{Configuration, default_configuration}
use fresh_core_native.Engine.{EngineState, boot}

-- logging/logger.cpp: g_log_file, g_log_path, g_max_size
pub record Logger : Type 0 where
  pub is_open : Bool
  pub path : Bytes
  pub max_size : ℕ

-- android/power_state.cpp: g_screen_supported, g_backlight_path
pub record Screen : Type 0 where
  pub supported : Bool
  pub backlight_path : Bytes

-- power/battery_monitor.cpp: g_battery_capacity_path, g_battery_status_path
pub record Battery : Type 0 where
  pub capacity_path : Bytes
  pub status_path : Bytes

-- diagnostics/diagnostics.cpp: g_batch_start_time_ms, g_total_files_processed_run (an int, counted
-- here without wrapping), g_total_bytes_freed_run
pub record Totals : Type 0 where
  pub batch_start_time_ms : ℕ
  pub files_processed : ℕ
  pub bytes_freed : ℕ

-- audio/mic_fixer.cpp: what g_poll_thread runs
pub data Thread : Type 0 where
  alsa polling : Thread

-- audio/mic_fixer.cpp: g_running, g_tinymix_path, and g_poll_thread where it is joinable
pub record Mic : Type 0 where
  pub running : Bool
  pub tinymix_path : Bytes
  pub thread : Option Thread

pub record Sys : Type 0 where
  -- the calls made so far, the newest first
  pub calls : History
  pub config : Configuration
  pub engine : EngineState
  pub logger : Logger
  pub screen : Screen
  pub battery : Battery
  pub thermal_zones : List Bytes
  -- power/idle_detector.cpp: g_screen_off_time
  pub screen_off_time : ℕ
  pub states : States
  pub totals : Totals
  pub mic : Mic

-- The initial values of the globals.
abbrev pub initial : Sys
initial = record {
  calls = [];
  config = default_configuration;
  engine = boot;
  logger = record { is_open = false; path = []; max_size = 0 };
  screen = record { supported = true; backlight_path = [] };
  battery = record { capacity_path = []; status_path = [] };
  thermal_zones = [];
  screen_off_time = 0;
  states = [];
  totals = record { batch_start_time_ms = 0; files_processed = 0; bytes_freed = 0 };
  mic = record { running = false; tinymix_path = bytes "tinymix"; thread = none };
}
