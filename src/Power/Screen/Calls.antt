-- ===== src/Power/Screen/Calls.antt =====
-- Asking for the screen removes no file and leaves the configuration and the engine alone.
use fresh_core_native.Prelude.{Bytes, ℤ, List, [], ◌∷◌, Option, none, some}
use fresh_core_native.Os.{Env}
use fresh_core_native.Sys.Monad.{Runs, Runs-bind}
use fresh_core_native.Sys.Still.{Sensed, Sensed-IsPreorder, senses, Runs-Still, Runs-Frame}
use fresh_core_native.Sys.Frame.{Frame}
use fresh_core_native.Logging.Calls.{log-Sensed}
use fresh_core_native.Sys.Monad.{St}
use fresh_core_native.Power.Screen.{detect_node, detect_loop, screen_from, is_screen_on}

module _ ⦃env : Env⦄ {P : Bytes → Type 0} where
  detect_node-Sensed :
      (path : Bytes) (file : Option Bytes) (rest : St (Unit {0}))
      → Runs (Sensed P) rest
      → Runs (Sensed P) (detect_node path file rest)
  unfolding detect_node
  detect_node-Sensed path none rest h = h
  detect_node-Sensed path (some _) rest h = search (senses, log-Sensed) depth 20

  detect_loop-Sensed : (paths : List Bytes) → Runs (Sensed P) (detect_loop paths)
  unfolding detect_loop
  detect_loop-Sensed [] = search (senses, log-Sensed) depth 20
  detect_loop-Sensed (path ∷ paths) =
      Runs-bind _ _ (search senses)
        (λ file. detect_node-Sensed path file _ (detect_loop-Sensed paths))

  screen_from-Sensed : (brightness : Option ℤ) → Runs (Sensed P) (screen_from brightness)
  unfolding screen_from
  screen_from-Sensed none = search senses depth 20
  screen_from-Sensed (some b) = search senses depth 20

  pub is_screen_on-Sensed : Runs (Sensed P) is_screen_on
  unfolding is_screen_on
  is_screen_on-Sensed = search (senses, detect_loop-Sensed, screen_from-Sensed) depth 20

  pub is_screen_on-Frame : Runs (Frame P) is_screen_on
  is_screen_on-Frame = Runs-Frame (Runs-Still is_screen_on-Sensed)
