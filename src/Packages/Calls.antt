-- ===== src/Packages/Calls.antt =====
-- Listing the packages removes no file and leaves the configuration and the engine alone.
use fresh_core_native.Prelude.{Bytes}
use fresh_core_native.Os.{Env}
use fresh_core_native.Sys.Monad.{Runs}
use fresh_core_native.Sys.Frame.{Frame, Frame-IsPreorder, frames}
use fresh_core_native.Packages.{get_installed_packages}

module _ ⦃env : Env⦄ {P : Bytes → Type 0} where
  pub get_installed_packages-Frame : Runs (Frame P) get_installed_packages
  unfolding get_installed_packages
  get_installed_packages-Frame = search frames depth 20
