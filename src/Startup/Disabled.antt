-- ===== src/Startup/Disabled.antt =====
-- main where the configuration turns the daemon off.
use fresh_core_native.Prelude.{◌≡◌, refl, ◌∙◌, Option, some}
use fresh_core_native.Os.{Env, Call}
use fresh_core_native.Sys.{Sys}
use fresh_core_native.Sys.Monad.{IsPreorder, Emits}
use fresh_core_native.Sys.Monad
use fresh_core_native.Sys.Fuel
use fresh_core_native.Logging.Emissions.{IsOpenCall}
use fresh_core_native.Logging.Report.{Obeys, Obeys-IsPreorder, IsLineCall, OnLog}
use fresh_core_native.Startup.Steps.{report_path, config_path}
use fresh_core_native.Startup.{Outcome, exited}

-- A call on the report and its rotated file, or the reading of the configuration.
pub data IsQuiet : Call → Type 0 where
  logs : {c : Call} → IsLineCall report_path c → IsQuiet c
  opens : {c : Call} → IsOpenCall report_path c → IsQuiet c
  reads : IsQuiet (Call.read_file config_path)

pub record KeepsConfig (s t : Sys) : Type 0 where
  pub config : t.config ≡ s.config

instance KeepsConfig-IsPreorder : IsPreorder KeepsConfig
KeepsConfig-IsPreorder = record {
  same = λ s. record { config = refl };
  trans = λ s t u a b. record { config = b.config ∙ a.config };
}

module _ ⦃env : Env⦄ where
  -- The logger is closed or writes to the report, and so it stays.
  abbrev Quiet : Sys → Sys → Type 0
  Quiet = Obeys (OnLog report_path) IsQuiet

  -- Quiet from `s` to the result's state, and the exit code is 0.
  pub record LeavesQuietly (s : Sys) (result : Option Outcome × Sys) : Type 0 where
    pub outcome : result.0 ≡ some (exited 0)
    pub emits : Emits IsQuiet s result.1
