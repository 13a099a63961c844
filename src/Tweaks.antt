-- ===== src/Tweaks.antt =====
-- system/system_tweaks.cpp: the two doze commands.
pub mod Calls
pub mod Boot
use fresh_core_native.Prelude.{Bytes, bytes, []}
use fresh_core_native.Os.{Env, Call, info}
use fresh_core_native.Sys.Monad.{St, perform, ◌>>=◌, ◌>>◌}
use fresh_core_native.Logging.{log}

abbrev pub force_idle_command : Bytes
force_idle_command = bytes "dumpsys deviceidle force-idle >/dev/null 2>&1 &"

abbrev pub unforce_command : Bytes
unforce_command = bytes "dumpsys deviceidle unforce >/dev/null 2>&1 &"

module _ ⦃env : Env⦄ where
  unfoldable pub optimize_doze : St (Unit {0})
  optimize_doze = do
    log info "Pushing system into Extreme Doze Mode (force-idle)..." []
    perform (Call.system force_idle_command) (λ h. tt)
    log info "Deep Doze engaged." []

  unfoldable pub wake_from_doze : St (Unit {0})
  wake_from_doze = do
    log info "Waking system from Doze to prevent lockscreen lag..." []
    perform (Call.system unforce_command) (λ h. tt)
