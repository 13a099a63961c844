-- ===== src/Tests/Examples.antt =====
-- The theorems of the library at concrete inputs.
use fresh_core_native.Prelude.{
  ℕ, ◌<◌, ◌≡◌, ◌≢◌, refl, inr, Bytes, bytes, bytes_eq, contains, starts_with, join, true, false,
  some, [], ◌∷◌, ◌++◌, arith,
}
use fresh_core_native.CacheData.{PackageState, CacheDirInfo}
use fresh_core_native.Config.{default_configuration, lines}
use fresh_core_native.Config.File.{load_lines}
use fresh_core_native.Engine.{boot, active, deep_idle}
use fresh_core_native.Os.{History}
use fresh_core_native.Sys.{Sys, initial}
use fresh_core_native.Sys.Monad.{Runs}
use fresh_core_native.Sys.Frame.{Frame}
use fresh_core_native.Filesystem.{children_of}
use fresh_core_native.StateImage.{
  truncated, corrupt, loaded, states_bytes, header_bytes, save_header, load_file, state_bytes,
  le_bytes,
}
use fresh_core_native.StateImage.RoundTrip.{file_bytes, load_file-file_bytes}
use fresh_core_native.StateImage.Corruption.{load_file_corrupt, load_file_truncated}
use fresh_core_native.StateStorage.{get_package_state, update_package_state}
use fresh_core_native.StateStorage.Restore.{WellKeyed, update_package_state-WellKeyed}
use fresh_core_native.Cache.Roots.{IsRoot, IsCleanable, IsCleanable-root, IsCleanable-join}
use fresh_core_native.Cache.Cleaner.{clean_directory_safely, cleaned_state}
use fresh_core_native.Cache.Cleaner.Calls.{clean_directory_safely-Frame}
use fresh_core_native.Cache.Cleaner.PlainFiles.{IsListed, clean_directory_safely_plain_file}
use fresh_core_native.Decision.{evaluate_and_transition}
use fresh_core_native.Decision.Quiet.{Keeps, evaluate_and_transition-Keeps}
use fresh_core_native.Decision.Graph.{◌⟶◌, evaluate_and_transition_moves}
use fresh_core_native.Scheduler.{handle_timer, next_sleep_sec}
use fresh_core_native.Scheduler.Timer.{
  HasIntervals, seconds, IsRearmed, handle_timer_rearms, loaded_interval_positive,
}
use fresh_core_native.Tests.Device.{
  a_state, a_state-FitsWords, device, device-PathLimit, insertion_sort-Sorts,
}

abbrev dozing : Sys
dozing = record initial { engine = deep_idle }

boot-deep_idle : boot ≢ deep_idle
boot-deep_idle e = ground (arith, e)

evaluate_and_transition-Keeps_example :
    Keeps initial (evaluate_and_transition ⦃env = device⦄ 4097 initial).1
evaluate_and_transition-Keeps_example =
    evaluate_and_transition-Keeps ⦃env = device⦄ 4097 initial (inr boot-deep_idle)

evaluate_and_transition_moves_example :
    deep_idle ⟶ (evaluate_and_transition ⦃env = device⦄ 4097 dozing).1.engine
evaluate_and_transition_moves_example =
    evaluate_and_transition_moves ⦃env = device⦄ device-PathLimit 4097 (omega arith) dozing

default-HasIntervals : HasIntervals default_configuration
default-HasIntervals = record {
  on_active = seconds 1800 (omega arith) (omega arith);
  on_screen_off = seconds 300 (omega arith) (omega arith);
  on_deep_idle = seconds 60 (omega arith) (omega arith);
}

handle_timer_rearms_example :
    IsRearmed default_configuration
      (handle_timer ⦃env = device⦄ 4097 dozing).0
      (handle_timer ⦃env = device⦄ 4097 dozing).1
handle_timer_rearms_example =
    handle_timer_rearms ⦃env = device⦄ device-PathLimit insertion_sort-Sorts 4097 (omega arith)
      dozing default-HasIntervals refl

abbrev no_padding : ℕ → ℕ
no_padding i = 0

load_file-file_bytes_example :
    load_file (file_bytes 7 no_padding (a_state ∷ [])) ≡ loaded (a_state ∷ [])
load_file-file_bytes_example =
    load_file-file_bytes 7 no_padding (a_state ∷ []) (omega arith) (omega arith)
      (a_state-FitsWords, tt)

abbrev rest_of_state : Bytes
rest_of_state =
    0 ∷ 0 ∷ 0 ∷ 0 ∷ 0 ∷ 0 ∷ 0 ∷ 0 ∷ 0 ∷ 0 ∷ 0 ∷ 0 ∷ 0 ∷ 0 ∷ 0 ∷ 0 ∷ 0 ∷ 0 ∷ 0 ∷ 0 ∷ 0 ∷ 0 ∷ 0 ∷ 0
    ∷ 0 ∷ 0 ∷ 0 ∷ 0 ∷ 0 ∷ 0 ∷ 0 ∷ 0 ∷ 0 ∷ 0 ∷ 0 ∷ 0 ∷ 0 ∷ 0 ∷ []

a_state_bytes : states_bytes no_padding 0 (a_state ∷ []) ≡ (1 ∷ []) ++ 0 ∷ rest_of_state
unfolding states_bytes state_bytes le_bytes
a_state_bytes = refl

load_file_truncated_example :
    load_file (header_bytes (save_header 7 no_padding (a_state ∷ [])) ++ (1 ∷ [])) ≡ truncated
load_file_truncated_example =
    load_file_truncated 7 no_padding (a_state ∷ []) (omega arith) (omega arith) (1 ∷ [])
      rest_of_state 0 a_state_bytes

load_file_corrupt_example :
    load_file
      (header_bytes (save_header 7 no_padding (a_state ∷ [])) ++ ((1 ∷ []) ++ 9 ∷ rest_of_state))
    ≡ corrupt
load_file_corrupt_example =
    load_file_corrupt 7 no_padding (a_state ∷ []) (omega arith) (omega arith) (1 ∷ []) rest_of_state
      0 9 a_state_bytes (omega arith) (omega arith) (omega arith)

abbrev tombstones_dir : CacheDirInfo
tombstones_dir = record {
  path = bytes "/data/tombstones";
  pkg_name = bytes "system";
  size_bytes = 0;
  size_calculated = true;
}

clean_directory_safely-Frame_example :
    Runs (Frame IsCleanable) (clean_directory_safely ⦃env = device⦄ 4097 tombstones_dir)
clean_directory_safely-Frame_example =
    clean_directory_safely-Frame ⦃env = device⦄ IsCleanable-join 4097 tombstones_dir
      (λ name. IsCleanable-root (bytes "/data/tombstones") name IsRoot.tombstones)

abbrev c_dir : CacheDirInfo
c_dir = record { path = bytes "/c"; pkg_name = bytes "c"; size_bytes = 0; size_calculated = true }

c_dir-IsListed : IsListed ⦃env = device⦄ (bytes "/c") (bytes "a.txt" ∷ [])
unfolding bytes bytes_eq contains starts_with children_of
c_dir-IsListed = record { opens = λ h. refl; reads = λ h. refl; lists = λ h. refl }

a_txt_closed : (h : History) → device.open_dir h (join (bytes "/c") (bytes "a.txt")) ≡ false
unfolding bytes contains starts_with
a_txt_closed h = refl

clean_directory_safely_plain_file_example :
    (clean_directory_safely ⦃env = device⦄ 4097 c_dir initial).0 ≡ some false
clean_directory_safely_plain_file_example =
    clean_directory_safely_plain_file ⦃env = device⦄ device-PathLimit 4097 (omega arith) c_dir
      (bytes "a.txt") [] c_dir-IsListed a_txt_closed initial

loaded_interval_positive_example :
    0
    < next_sleep_sec
        (load_lines device.atoi_overflow (lines (bytes "enabled=1")) default_configuration)
        active
loaded_interval_positive_example =
    loaded_interval_positive device.atoi_overflow (bytes "enabled=1") active

cleaned_state-hash : (now : ℕ) (st : PackageState) → (cleaned_state now st).hash ≡ st.hash
unfolding cleaned_state
cleaned_state-hash now st = refl

update_package_state-WellKeyed_example :
    WellKeyed
      (update_package_state ⦃env = device⦄
        (97 ∷ [])
        (cleaned_state 5 (get_package_state ⦃env = device⦄ (97 ∷ []) initial).0)
        initial).1.states
update_package_state-WellKeyed_example =
    update_package_state-WellKeyed ⦃env = device⦄ (97 ∷ []) (cleaned_state 5) (cleaned_state-hash 5)
      initial tt
