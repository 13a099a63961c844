-- ===== src/Startup/Steps.antt =====
-- core/main.cpp: the parts of `main` before and behind the scheduler.
use fresh_core_native.Prelude.{Bytes, bytes, Bool, true, false, []}
use fresh_core_native.Os.{Env, info, warning}
use fresh_core_native.Sys.Monad.{St, pure, ◌>>=◌, ◌>>◌}
use fresh_core_native.Logging.{initialize, shutdown, log}
use fresh_core_native.Config.File.{load_config}
use fresh_core_native.Tweaks.Boot.{apply_boot_tweaks}
use fresh_core_native.Audio.Threads.{start_polling, stop_polling}

abbrev pub report_path : Bytes
report_path = bytes "/data/media/0/Download/FreshCore_Report.txt"

abbrev pub config_path : Bytes
config_path = bytes "/data/adb/freshcore/config.conf"

module _ ⦃env : Env⦄ where
  unfoldable pub open_report : St (Unit {0})
  open_report = do
    initialize report_path 2097152
    log info "==================================================" []
    log info "FreshCore Native v1.0 started." []
    log info "==================================================" []

  unfoldable pub report_loaded : Bool → St (Unit {0})
  report_loaded true = pure tt
  report_loaded false = log warning "Failed to load config, using defaults." []

  unfoldable pub prepare : St (Unit {0})
  unfolding open_report report_loaded
  prepare = do open_report; loaded ← load_config config_path; report_loaded loaded

  unfoldable pub leave_disabled : St (Unit {0})
  leave_disabled = do log info "FreshCore disabled in config. Exiting." []; shutdown

  unfoldable pub start_services : St (Unit {0})
  start_services = do
    apply_boot_tweaks
    log info "[SYSTEM] Background Maintenance and Cache Cleaner armed." []
    log info "[SYSTEM] Sweep will trigger automatically after 15 minutes of Screen-Off Idle." []
    start_polling

  unfoldable pub clean_up : St (Unit {0})
  clean_up = do stop_polling; shutdown
