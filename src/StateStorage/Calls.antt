-- ===== src/StateStorage/Calls.antt =====
-- The state table and its file remove nothing and leave the configuration and the engine alone.
use fresh_core_native.Prelude.{Bytes}
use fresh_core_native.CacheData.{PackageState}
use fresh_core_native.Os.{Env}
use fresh_core_native.Sys.Monad.{Runs}
use fresh_core_native.Sys.Still.{Still, Still-IsPreorder, stills, Runs-Frame}
use fresh_core_native.Sys.Frame.{Frame}
use fresh_core_native.Logging.Calls.{log-Still}
use fresh_core_native.StateStorage.{
  get_current_time_ms, get_package_state, update_package_state, save_state_atomic,
}

module _ ⦃env : Env⦄ {P : Bytes → Type 0} where
  pub get_current_time_ms-Still : Runs (Still P) get_current_time_ms
  unfolding get_current_time_ms
  get_current_time_ms-Still = search stills

  pub get_package_state-Still : (name : Bytes) → Runs (Still P) (get_package_state name)
  unfolding get_package_state
  get_package_state-Still name = search stills

  pub update_package_state-Still :
      (name : Bytes) (state : PackageState) → Runs (Still P) (update_package_state name state)
  unfolding update_package_state
  update_package_state-Still name state = search stills

  pub save_state_atomic-Still : Runs (Still P) save_state_atomic
  unfolding save_state_atomic
  save_state_atomic-Still = search (stills, log-Still) depth 40

  pub get_current_time_ms-Frame : Runs (Frame P) get_current_time_ms
  get_current_time_ms-Frame = Runs-Frame get_current_time_ms-Still

  pub get_package_state-Frame : (name : Bytes) → Runs (Frame P) (get_package_state name)
  get_package_state-Frame name = Runs-Frame (get_package_state-Still name)

  pub update_package_state-Frame :
      (name : Bytes) (state : PackageState) → Runs (Frame P) (update_package_state name state)
  update_package_state-Frame name state = Runs-Frame (update_package_state-Still name state)

  pub save_state_atomic-Frame : Runs (Frame P) save_state_atomic
  save_state_atomic-Frame = Runs-Frame save_state_atomic-Still
