-- ===== src/Tests/Files.antt =====
-- The theorems on the daemon's files, at concrete inputs.
use mathlib.Core.List.Permᴰ
use fresh_core_native.Prelude.{
  ◌+◌, ◌≤◌, ◌<◌, ℕ, ◌≡◌, ◌≢◌, ◌↔◌, refl, Bytes, bytes, bytes_eq, join, pos, negsuc, Bool, true,
  false, Option, some, [], ◌∷◌, map, u64, if◌then◌else◌, arith,
}
use fresh_core_native.Config.{Configuration, default_configuration}
use fresh_core_native.Config.File.{load_config}
use fresh_core_native.Config.File.Written.{config_text}
use fresh_core_native.Config.File.Written.RoundTrip.{load_config-config_text}
use fresh_core_native.Os.{Env, Stat}
use fresh_core_native.StateImage.{read_header}
use fresh_core_native.Sys.{Sys, initial}
use fresh_core_native.Sys.Monad
use fresh_core_native.Filesystem.{children_of}
use fresh_core_native.Filesystem.Listing.{Lists}
use fresh_core_native.CacheData.{CacheDirInfo}
use fresh_core_native.Sys.Accounts.{removals}
use fresh_core_native.Cache.Cleaner.{clean_directory_safely}
use fresh_core_native.Cache.Cleaner.Accounts.Cleaning.{clean_directory_safely_counts}
use fresh_core_native.Cache.Policy.{is_valid_cache_path}
use fresh_core_native.Cache.Policy.Accepted.{IsAccepted, is_valid_cache_path_iff}
use fresh_core_native.Cache.Scanner.{get_directory_size}
use fresh_core_native.Cache.Scanner.Trees.{
  file, dir, Entries, end, entry, names, entries_size, entries_depth, depth, IsAt, AreIn,
}
use fresh_core_native.Cache.Scanner.Trees.Size.{get_directory_size-entries_size}
use fresh_core_native.Packages.{get_installed_packages}
use fresh_core_native.Packages.RoundTrip.{
  Entry, IsEntry, info_of, list_text, get_installed_packages-list_text,
}
use fresh_core_native.Streams.Words.{is_word}
use fresh_core_native.StateStorage.{
  can_hold, allocation, returned, initialize_state_storage, save_state_atomic, state_file_tmp,
}
use fresh_core_native.StateStorage.Abstract.{table_of}
use fresh_core_native.StateStorage.Walks.{Walks}
use fresh_core_native.StateStorage.Restart.{written_to, restart_restores}
use fresh_core_native.StateStorage.UnitTest.{passed, test_state_storage, test_state_storage_passes}
use fresh_core_native.Tests.Device.{device, a_state, a_state-FitsWords, a_state-WellKeyed}

-- A device all of whose files hold one text.
abbrev holding : Bytes → Env
holding content = record device { file = λ h path. some content }

abbrev off : Configuration
off = record default_configuration {
  enabled = false;
  cache_threshold_mb = pos 250;
  idle_delay_minutes = negsuc 0;
}

load_config-config_text_example :
    ((load_config ⦃env = holding (config_text off)⦄ [] initial).0 ≡ true)
    × ((load_config ⦃env = holding (config_text off)⦄ [] initial).1.config ≡ off)
load_config-config_text_example =
    load_config-config_text ⦃env = holding (config_text off)⦄ [] off initial
      (record {
        threshold = omega arith;
        delay = omega arith;
        battery = omega arith;
        cleanup = omega arith;
        files = omega arith;
        time = omega arith;
      })
      (record { active = refl; screen_off = refl; deep_idle = refl }) refl

abbrev one_package : Entry
one_package = record {
  name = b'a' ∷ [];
  uid = 10001;
  debuggable = b'0' ∷ [];
  data_dir = b'/' ∷ [];
  rest = [];
}

one_package-IsEntry : IsEntry one_package
one_package-IsEntry = record {
  name = is_word refl tt;
  uid = omega arith;
  debuggable = is_word refl tt;
  data_dir = is_word refl tt;
  rest = tt;
}

get_installed_packages-list_text_example :
    (get_installed_packages ⦃env = holding (list_text (one_package ∷ []))⦄ initial).0
    ≡ map info_of (one_package ∷ [])
get_installed_packages-list_text_example =
    get_installed_packages-list_text ⦃env = holding (list_text (one_package ∷ []))⦄
      (one_package ∷ []) initial (one_package-IsEntry, tt) refl

abbrev data_dir : Bytes
data_dir = bytes "/data/user/0/a"

data_dir-ne-nil : data_dir ≢ []
unfolding bytes
data_dir-ne-nil e = cc

is_valid_cache_path_iff_example :
    ((is_valid_cache_path ⦃env = device⦄ (join data_dir (bytes "cache")) data_dir initial).0 ≡ true)
    ↔ IsAccepted (join data_dir (bytes "cache")) data_dir
is_valid_cache_path_iff_example =
    is_valid_cache_path_iff ⦃env = device⦄ (join data_dir (bytes "cache")) data_dir
      (join data_dir (bytes "cache")) data_dir initial refl refl refl data_dir-ne-nil

load_returns : (initialize_state_storage ⦃env = device⦄ initial).0 ≡ returned
unfolding initialize_state_storage Monad.◌>>=◌ can_hold allocation bytes
load_returns = refl

test_state_storage_passes_example : (test_state_storage ⦃env = device⦄ initial).0 ≡ passed
test_state_storage_passes_example =
    test_state_storage_passes ⦃env = device⦄ initial refl load_returns

-- "/r" with the file "a" of five bytes, and the directory "b" with the file "c" of seven.
abbrev root : Bytes
root = bytes "/r"

abbrev tree : Entries
tree = entry (bytes "a") (file 5) (entry (bytes "b") (dir (entry (bytes "c") (file 7) end)) end)

abbrev stat_of : Bool → ℕ → Option Stat
stat_of is_dir size = some (record { is_dir = is_dir; size = size; mtime = 0 })

abbrev forest : Env
forest = record device {
  lstat = λ h path.
      if bytes_eq path (join root (bytes "b"))
      then stat_of true 4096
      else if bytes_eq path (join root (bytes "a"))
      then stat_of false 5
      else stat_of false 7;
  open_dir = λ h path. true;
  entries = λ h path.
      if bytes_eq path root
      then bytes "." ∷ bytes "a" ∷ bytes "b" ∷ []
      else bytes ".." ∷ bytes "c" ∷ [];
}

root-Lists : Lists ⦃env = forest⦄ root (names tree)
unfolding children_of bytes bytes_eq
root-Lists = record { opens = λ h. refl; reads = λ h. refl; lists = λ h. refl }

b-Lists : Lists ⦃env = forest⦄ (join root (bytes "b")) (bytes "c" ∷ [])
unfolding children_of bytes bytes_eq
b-Lists = record { opens = λ h. refl; reads = λ h. refl; lists = λ h. refl }

tree-AreIn : AreIn ⦃env = forest⦄ root tree
unfolding IsAt bytes bytes_eq
tree-AreIn = ((0, λ h. refl), (((4096, 0, λ h. refl), b-Lists, ((0, λ h. refl), tt)), tt))

tree_depth : entries_depth tree < 3
unfolding depth
tree_depth = omega arith

get_directory_size-entries_size_example :
    (get_directory_size ⦃env = forest⦄ 3 root initial).0 ≡ some (u64 (entries_size tree))
get_directory_size-entries_size_example =
    get_directory_size-entries_size ⦃env = forest⦄ 3 root tree root-Lists tree-AreIn tree_depth
      initial

abbrev forest_cache : CacheDirInfo
forest_cache = record { path = root; pkg_name = bytes "r"; size_bytes = 12; size_calculated = true }

abbrev cleaned_forest : Sys
cleaned_forest = (clean_directory_safely ⦃env = forest⦄ 4 forest_cache initial).1

clean_directory_safely_counts_example :
    cleaned_forest.totals.files_processed + removals []
    ≤ initial.totals.files_processed + removals cleaned_forest.calls
clean_directory_safely_counts_example =
    clean_directory_safely_counts ⦃env = forest⦄ 4 forest_cache initial

device-Walks : Walks device.walk
device-Walks = record { permutes = Permᴰ.refl }

abbrev saved : Sys
saved = record initial { states = (1, a_state) ∷ [] }

abbrev next_process : Env
next_process = holding (written_to state_file_tmp (save_state_atomic ⦃env = device⦄ saved).1.calls)

next_returns : (initialize_state_storage ⦃env = next_process⦄ initial).0 ≡ returned
unfolding initialize_state_storage Monad.◌>>=◌ can_hold allocation written_to save_state_atomic
    bytes read_header
next_returns = refl

restart_restores_example :
    table_of (initialize_state_storage ⦃env = next_process⦄ initial).1.states
    ≡ table_of saved.states
restart_restores_example =
    restart_restores device next_process saved initial device-Walks (λ h. refl) (λ h. refl)
      (record { keyed = a_state-WellKeyed; few = omega arith; fits = (a_state-FitsWords, tt) }) refl
      refl next_returns
