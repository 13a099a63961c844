-- ===== src/Audio/Commands.antt =====
-- audio/mic_fixer.cpp: ExecCommand, RunTinymix, and the search for the tinymix program.
pub mod Output
use fresh_core_native.Prelude.{
  ℕ, zero, suc, Bytes, bytes, contains, is_empty, Bool, true, false, not, ◌&&◌, ◌||◌, Option, none,
  some, List, [], ◌∷◌, ◌++◌, length, drop, ◌==◌, if◌then◌else◌,
}
use fresh_core_native.Os.{Env, Call, info, warning, text}
use fresh_core_native.Config.{trim_right}
use fresh_core_native.Streams.{first_line, c_string}
use fresh_core_native.Sys.{Sys}
use fresh_core_native.Sys.Monad.{St, pure, gets, modify, perform, ◌>>=◌, ◌>>◌}
use fresh_core_native.Logging.{log}

-- The loop over fgets with a buffer of 128 bytes; `n` bounds its rounds.
unfoldable pub read_chunks : ℕ → Bytes → Bytes
unfolding first_line c_string
read_chunks zero s = []
read_chunks (suc n) [] = []
read_chunks (suc n) (c ∷ s) =
    let chunk = first_line 127 (c ∷ s) in
    c_string chunk ++ read_chunks n (drop (length chunk) (c ∷ s))

-- Each round reads a byte at least.
unfoldable pub read_output : Option Bytes → Bytes
unfolding read_chunks
read_output none = []
read_output (some output) = read_chunks (length output) output

-- while (output.back() is '\n' or '\r') output.pop_back();
unfoldable pub strip_newlines : Bytes → Bytes
strip_newlines [] = []
strip_newlines (c ∷ s) =
    let rest = strip_newlines s in if (c == 10 || c == 13) && is_empty rest then [] else c ∷ rest

-- " " + val, where the value is not empty
abbrev pub spaced : Bytes → Bytes
spaced [] = []
spaced (c ∷ s) = 32 ∷ c ∷ s

-- The command behind the path of tinymix.
unfoldable pub tinymix_arguments : Bytes → Bytes → Bytes → Bytes → Bytes
tinymix_arguments control val1 val2 val3 =
    bytes " \""
    ++ (control ++ (bytes "\" " ++ (val1 ++ (spaced val2 ++ (spaced val3 ++ bytes " 2>&1")))))

abbrev pub full_val : Bytes → Bytes → Bytes → Bytes
full_val val1 val2 val3 = val1 ++ (spaced val2 ++ spaced val3)

unfoldable pub is_failure : Bytes → Bool
unfolding bytes contains
is_failure output =
    contains (bytes "Invalid") output
    || contains (bytes "Could not") output
    || contains (bytes "usage:") output
    || contains (bytes "No such") output
    || contains (bytes "error") output

abbrev or_unknown : Bytes → Bytes
or_unknown output = if is_empty output then bytes "Unknown Error" else output

abbrev pub find_tinymix : Bytes
find_tinymix = bytes "command -v tinymix 2>/dev/null"

abbrev pub set_tinymix_path : Bytes → Sys → Sys
set_tinymix_path path s = record s { mic = record s.mic { tinymix_path = path } }

module _ ⦃env : Env⦄ where
  unfoldable pub exec_command : Bytes → St Bytes
  unfolding read_output
  exec_command cmd = do
    output ← perform (Call.popen cmd) (λ h. env.pipe h cmd)
    pure (read_output output)

  unfoldable pub report_route : Bytes → Bytes → Bytes → St Bool
  unfolding is_failure
  report_route control value output =
      if is_failure output
      then (do
        log warning "X FAILED: Route [%s] -> [%s]. Reason: %s"
            (text control ∷ text value ∷ text (or_unknown output) ∷ [])
        pure false)
      else (do
        log info "V SUCCESS: Route [%s] -> [%s] established." (text control ∷ text value ∷ [])
        pure true)

  unfoldable pub run_tinymix : Bytes → Bytes → Bytes → Bytes → St Bool
  unfolding exec_command tinymix_arguments strip_newlines report_route
  run_tinymix control val1 val2 val3 = do
    path ← gets (λ s. s.mic.tinymix_path)
    output ← exec_command (path ++ tinymix_arguments control val1 val2 val3)
    report_route control (full_val val1 val2 val3) (strip_newlines output)

  -- Whether the program was found; then its path is kept.
  unfoldable pub discover_tinymix : St Bool
  unfolding exec_command trim_right bytes contains
  discover_tinymix = do
    path_check ← exec_command find_tinymix
    if not (is_empty path_check) && contains (bytes "tinymix") path_check
        then (do modify (set_tinymix_path (trim_right path_check)); pure true)
        else pure false
