-- ===== src/Lib.antt =====
-- FreshCore Native: a daemon for rooted Android devices that empties the caches of apps while the
-- device is idle.
--
-- The program and its parts. core/scheduler.cpp waits for a timer in an event loop and calls
-- EvaluateAndTransition of core/decision_engine.cpp, which asks power/idle_detector.cpp how idle
-- the device is, moves the engine's state (core/state.cpp), and in deep idle runs the maintenance:
-- the sweeps of cache/cache_cleaner.cpp, then for each package of android/package_manager.cpp the
-- scan of cache/package_scanner.cpp, the choice of targets by cache/cache_analyzer.cpp and their
-- cleaning by cache/cache_cleaner.cpp. What is known of each package is kept by
-- cache/state_storage.cpp. core/main.cpp opens the report and reads the configuration, applies the
-- boot tweaks of system/system_tweaks.cpp, starts the thread of audio/mic_fixer.cpp, which follows
-- the calls of the phone and sets the microphone's routes with tinymix, and then runs the
-- scheduler.
--
-- Which file models what:
--   Startup                core/main.cpp: main is `main_program`, its parts are in Steps
--   Scheduler              core/scheduler.cpp: RunScheduler is `run_scheduler`, its loop `event_loop`
--   Decision, Engine       core/decision_engine.cpp, core/state.cpp
--   Power                  power/idle_detector.cpp (Idle), android/power_state.cpp (Screen),
--                          power/battery_monitor.cpp (Battery), power/thermal_monitor.cpp (Thermal),
--                          memory/psi_monitor.cpp (Pressure), android/activity_state.cpp (Activity)
--   Cache                  cache/cache_cleaner.cpp (Cleaner), cache/cache_analyzer.cpp (Analyzer),
--                          cache/package_scanner.cpp (Scanner), cache/cache_policy.cpp (Policy)
--   StateStorage           cache/state_storage.cpp: the table and the calls; StateImage: the bytes
--   Packages, Logging, Filesystem, Diagnostics, Config
--                          android/package_manager.cpp, logging/logger.cpp, storage/filesystem.cpp,
--                          diagnostics/diagnostics.cpp, config/config.cpp
--   Tweaks                 system/system_tweaks.cpp: OptimizeDoze and WakeFromDoze; ApplyBootTweaks is
--                          in Boot
--   Audio                  audio/mic_fixer.cpp: ExecCommand and RunTinymix (Commands), the routes
--                          (Routes), PollLoop (Polling), AlsaInotifyLoop (Alsa), StartPolling and
--                          StopPolling (Threads)
--   Interleaving           core/main.cpp with both threads: the turns of RunScheduler's loop and of the
--                          audio thread as a step relation, from the start of the thread to the join in
--                          StopPolling
--   Monitors               storage/storage_monitor.cpp, memory/memory_monitor.cpp,
--                          memory/zram_monitor.cpp, android/binder_interface.cpp
--   CacheData, Sys         the structs, and the global variables as one record; Sys/Accounts counts
--                          the calls that remove files against the total of diagnostics/diagnostics.cpp
--   Os                     the operating system and the C library's input and output
--   Streams                the extraction of numbers and words from std::istream, and fgets
--   StateStorage/UnitTest  tests/test_state_storage.cpp
--   Tests                  a sample device, and the theorems at concrete inputs
-- A function keeps its name in snake_case. Where a loop or the rest of a function after a branch is a
-- definition of its own, its comment says which part it is.
--
-- How the code is modelled. A function that reads or writes globals or calls the system is state
-- passing over `Sys`, which holds the globals and the list of the calls made so far. The answer to
-- a call is a function of that list, given by the record `Env`, which every definition takes as a
-- parameter: files, directories, clocks, processes and failures may be anything and may change
-- between any two calls. The parameters also stand for what C++ leaves open: the order of an
-- unordered_map, the padding of a struct, the order in which std::sort leaves equal elements, atoi
-- on a value that is no int, and arithmetic on floats. Widths: unsigned words wrap around (`u32`,
-- `u64`), an int product wraps too; the int counters of files are numbers without a bound. Structs
-- are laid out as on ARM64.
--
-- Fuel. RemoveRecursiveBatched and GetDirectorySize recur as deep as the directories go, and take
-- fuel for the depth. A fuel of 4097 is enough wherever open refuses paths of PATH_MAX = 4096 bytes
-- or more (`PathLimit`), since each level makes the path longer. All other loops are structural
-- recursion.
--
-- The loops that wait take what they wait for as a list: the turns of the event loop, the rounds of
-- PollLoop with the values that it reads of g_running, the turns of AlsaInotifyLoop with the bytes
-- that read gives. A run goes as far as its list. In Interleaving, where the two threads share the
-- globals, a step is one turn of either, with poll in AlsaInotifyLoop as a place between two steps,
-- which its timeout leaves; the test of g_running at the head of a loop reads what the other thread
-- left there, and the tests in PollLoop's sleep read any values. The turns of the audio thread
-- change only the log, the logger's variables, which the program guards by a lock, and the path of
-- tinymix, which no other thread uses.
--
-- Descriptions beside the code. Written and Decimal (under Config), RoundTrip (under Packages),
-- Trees (under Cache/Scanner), Abstract and Restart (under StateStorage) say what the code is
-- compared with: the text of a configuration and of a list of packages, directory trees, the table
-- as what its hashes find, and what a file holds after fopen and fwrite.
--
-- Not modelled: interleavings inside a turn but for poll, commands that never return, allocations
-- that fail but for the vector of InitializeStateStorage, which ends the process, the installing of
-- the signal handler, the text of a log line (its format and arguments are kept), the test of the
-- configuration, which does not compile against the sources, and the scripts of the module.
pub mod Prelude
pub mod Config
pub mod Engine
pub mod CacheData
pub mod Os
pub mod Sys
pub mod Streams
pub mod Logging
pub mod Filesystem
pub mod Power
pub mod Tweaks
pub mod Diagnostics
pub mod Monitors
pub mod StateImage
pub mod StateStorage
pub mod Packages
pub mod Cache
pub mod Audio
pub mod Decision
pub mod Scheduler
pub mod Interleaving
pub mod Startup
pub mod Tests
