-- ===== src/Power/Pressure.antt =====
-- memory/psi_monitor.cpp: the kernel's memory pressure. Floats are their bit patterns.
pub mod Calls
use fresh_core_native.Prelude.{
  ℕ, Bytes, bytes, starts_with, Bool, true, false, Option, none, some, List, [], ◌∷◌, if◌then◌else◌,
}
use fresh_core_native.Os.{Env, Call, debug, number}
use fresh_core_native.Config.{lines}
use fresh_core_native.Sys.Monad.{St, pure, perform, ◌>>=◌, ◌>>◌}
use fresh_core_native.Logging.{log}

pub record PsiStats : Type 0 where
  pub some_avg10 : ℕ
  pub full_avg10 : ℕ
  pub is_supported : Bool

abbrev unsupported : PsiStats
unsupported = record { some_avg10 = 0; full_avg10 = 0; is_supported = false }

-- 15.0f
abbrev fifteen : ℕ
fifteen = 0x41700000

abbrev pub psi_path : Bytes
psi_path = bytes "/proc/pressure/memory"

abbrev or_old : Option ℕ → ℕ → ℕ
or_old none old = old
or_old (some new) old = new

module _ ⦃env : Env⦄ where
  read_psi_line : PsiStats → Bytes → PsiStats
  read_psi_line stats line =
      if starts_with (bytes "some") line
      then record stats {
        some_avg10 = or_old (env.scan_float "some avg10=%f" line) stats.some_avg10;
      }
      else if starts_with (bytes "full") line
      then record stats {
        full_avg10 = or_old (env.scan_float "full avg10=%f" line) stats.full_avg10;
      }
      else stats

  read_psi_lines : PsiStats → List Bytes → PsiStats
  unfolding read_psi_line
  read_psi_lines stats [] = stats
  read_psi_lines stats (line ∷ rest) = read_psi_lines (read_psi_line stats line) rest

  psi_of : Option Bytes → PsiStats
  unfolding read_psi_lines lines
  psi_of none = unsupported
  psi_of (some content) =
      read_psi_lines (record unsupported { is_supported = true }) (lines content)

  unfoldable pub get_memory_psi : St PsiStats
  unfolding psi_of
  get_memory_psi = do
    file ← perform (Call.read_file psi_path) (λ h. env.file h psi_path)
    pure (psi_of file)

  unfoldable pub is_memory_pressure_safe : St Bool
  unfolding get_memory_psi
  is_memory_pressure_safe = do
    stats ← get_memory_psi
    if stats.is_supported
        then (if env.float_gt stats.some_avg10 fifteen
            then (do
              log debug "Memory pressure high (some avg10 = %.2f)" (number stats.some_avg10 ∷ [])
              pure false)
            else pure true)
        else pure true
