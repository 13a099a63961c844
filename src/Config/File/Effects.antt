-- ===== src/Config/File/Effects.antt =====
-- The call that LoadConfig makes, and the configuration that it leaves.
use fresh_core_native.Prelude.{◌≡◌, refl, Bytes, true, Option, none, some}
use fresh_core_native.Os.{Env, Call}
use fresh_core_native.Sys.{Sys, Logger}
use fresh_core_native.Logging.Report.{Obeys, Obeys-IsPreorder, Obeys-perform, obeys}
use fresh_core_native.Sys.Monad.{Runs, Runs-bind, Emits, Emits-IsPreorder, emits}
use fresh_core_native.Sys.Monad
use fresh_core_native.Config.{lines}
use fresh_core_native.Config.File.{load_lines, load_content, load_config}

module _ ⦃env : Env⦄ where
  load_content-Emits :
      {Q : Call → Type 0} (content : Option Bytes) → Runs (Emits Q) (load_content content)
  unfolding load_content
  load_content-Emits none = search emits
  load_content-Emits (some content) = search emits depth 20

  pub load_config-Emits :
      {Q : Call → Type 0} (path : Bytes)
      → Q (Call.read_file path)
      → Runs (Emits Q) (load_config path)
  unfolding load_config
  load_config-Emits path q = search (emits, load_content-Emits) depth 20

  load_content-Obeys :
      {I : Logger → Type 0} {Q : Call → Type 0} (content : Option Bytes)
      → Runs (Obeys I Q) (load_content content)
  unfolding load_content
  load_content-Obeys none = search obeys
  load_content-Obeys {I} (some content) = search (obeys, λ (s : Sys) (i : I s.logger). i) depth 20

  pub load_config-Obeys :
      {I : Logger → Type 0} {Q : Call → Type 0} (path : Bytes)
      → Q (Call.read_file path)
      → Runs (Obeys I Q) (load_config path)
  unfolding load_config
  load_config-Obeys path q = Runs-bind _ _ (Obeys-perform _ _ q) load_content-Obeys

  pub load_config-config :
      (path content : Bytes) (s : Sys)
      → env.file s.calls path ≡ some content
      → (load_config path s).1.config ≡ load_lines env.atoi_overflow (lines content) s.config
  unfolding load_config load_content Monad.◌>>=◌ Monad.perform
  load_config-config path content s e = rw e refl

  pub load_config-succeeds :
      (path content : Bytes) (s : Sys)
      → env.file s.calls path ≡ some content
      → (load_config path s).0 ≡ true
  unfolding load_config load_content Monad.◌>>=◌ Monad.perform
  load_config-succeeds path content s e = rw e refl
