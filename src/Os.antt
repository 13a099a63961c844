-- ===== src/Os.antt =====
-- The operating system and the C library's input and output, as the program sees them: the calls
-- that the program makes, in order, and for each call an answer that may depend on all calls made
-- before it. The answers are a parameter of the model, so they stand for every device.
use fresh_core_native.Prelude.{ℕ, Bytes, ℤ, Bool, Option, List, String}
use fresh_core_native.CacheData.{PackageState, MaintenanceTarget}

pub data LogLevel : Type 0 where
  debug info warning error : LogLevel

-- An argument of a log format.
pub data Arg : Type 0 where
  text : Bytes → Arg
  number : ℕ → Arg
  int : ℤ → Arg

pub data Call : Type 0 where
  -- std::ifstream on a path, read to its end; std::ofstream on a path
  read_file : Bytes → Call
  write_file : Bytes → Bytes → Call
  -- popen with the output read by fgets; std::system
  popen : Bytes → Call
  system : Bytes → Call
  stat : Bytes → Call
  lstat : Bytes → Call
  realpath : Bytes → Call
  -- open(O_RDONLY | O_DIRECTORY | O_NOFOLLOW), opendir, fdopendir, readdir to the end, closedir
  open_dir : Bytes → Call
  opendir : Bytes → Call
  fdopendir : Bytes → Call
  readdir : Bytes → Call
  closedir : Bytes → Call
  rmdir : Bytes → Call
  unlink : Bytes → Call
  -- open(O_RDONLY), ioctl(FITRIM), close
  open_file : Bytes → Call
  fitrim : Bytes → Call
  close : Bytes → Call
  clock_realtime : Call
  clock_monotonic : Call
  clock_cputime : Call
  time : Call
  usleep : ℕ → Call
  -- stdio on a path; `fprintf` is a log line
  fopen : Bytes → Call
  fstat : Bytes → Call
  fwrite : Bytes → Bytes → Call
  -- the time, the level's name, and the format with its arguments
  fprintf : ℕ → Bytes → String → List Arg → Call
  fflush : Bytes → Call
  fsync : Bytes → Call
  fclose : Bytes → Call
  rename : Bytes → Bytes → Call
  -- timerfd_settime with the delay in seconds, and the read that clears the timer
  timerfd_settime : ℕ → Call
  timerfd_read : Call
  -- the descriptors of the event loop: epoll_create1, timerfd_create, epoll_ctl, and their close
  epoll_create : Call
  timerfd_create : Call
  epoll_add : Call
  close_timer : Call
  close_epoll : Call
  -- std::filesystem: exists, is_directory, directory_iterator
  exists : Bytes → Call
  is_directory : Bytes → Call
  directory_iterator : Bytes → Call
  statvfs : Bytes → Call
  -- the audio thread: its start and join, setpriority(PRIO_PROCESS, 0, 19), sleep_for in milliseconds
  thread_start : Call
  thread_join : Call
  setpriority : Call
  sleep_for : ℕ → Call
  -- inotify_init1, inotify_add_watch, poll, read and close of its descriptor
  inotify_init : Call
  inotify_add_watch : Bytes → Call
  -- poll with its timeout in milliseconds, where -1 waits forever
  poll : ℤ → Call
  read_events : Call
  close_inotify : Call

-- The calls made so far, the newest first.
abbrev pub History : Type 0
History = List Call

pub record Stat : Type 0 where
  pub is_dir : Bool
  pub size : ℕ
  pub mtime : ℕ

pub record Timespec : Type 0 where
  pub tv_sec : ℕ
  pub tv_nsec : ℕ

pub record Vfs : Type 0 where
  pub f_blocks : ℕ
  pub f_frsize : ℕ
  pub f_bavail : ℕ

-- The answers, where `none` or `false` is a failure, and what the C++ standard leaves open.
pub record Env : Type 0 where
  pub file : History → Bytes → Option Bytes
  pub writable : History → Bytes → Bool
  pub pipe : History → Bytes → Option Bytes
  pub stat : History → Bytes → Option Stat
  pub lstat : History → Bytes → Option Stat
  pub realpath : History → Bytes → Option Bytes
  pub open_dir : History → Bytes → Bool
  pub opendir : History → Bytes → Bool
  pub fdopendir : History → Bytes → Bool
  pub entries : History → Bytes → List Bytes
  pub rmdir : History → Bytes → Bool
  pub unlink : History → Bytes → Bool
  pub open_file : History → Bytes → Bool
  -- the bytes trimmed
  pub fitrim : History → Bytes → Option ℕ
  pub realtime : History → Timespec
  pub monotonic : History → Timespec
  pub cputime : History → Option Timespec
  -- sysconf(_SC_PAGESIZE)
  pub page_size : ℕ
  pub time : History → ℕ
  -- whether so many bytes can be allocated; where not, the process ends (-fno-exceptions)
  pub allocates : History → ℕ → Bool
  pub fopen : History → Bytes → Bool
  pub fstat : History → Bytes → Option ℕ
  pub rename : History → Bytes → Bytes → Bool
  pub timerfd_read : History → Bool
  pub epoll_create : History → Bool
  pub timerfd_create : History → Bool
  pub epoll_add : History → Bool
  pub exists : History → Bytes → Bool
  pub is_directory : History → Bytes → Bool
  -- the names in a directory, none where it cannot be read
  pub listing : History → Bytes → List Bytes
  pub statvfs : History → Bytes → Option Vfs
  pub inotify_init : History → Bool
  pub inotify_add_watch : History → Bytes → Bool
  -- the order in which an unordered_map is walked, and the padding of the i-th state in a vector
  pub walk : List (ℕ × PackageState) → List (ℕ × PackageState)
  pub padding : ℕ → ℕ
  -- std::sort with a comparison, which leaves the order of equal elements open
  pub sort :
      (MaintenanceTarget → MaintenanceTarget → Bool)
      → List MaintenanceTarget
      → List MaintenanceTarget
  -- sscanf of one %f, and `>`, on the bit patterns of floats
  pub scan_float : String → Bytes → Option ℕ
  pub float_gt : ℕ → ℕ → Bool
  -- sscanf of one %llu, and the bits of ((double)free / total) * 100.0
  pub scan_u64 : String → Bytes → Option ℕ
  pub percent : ℕ → ℕ → ℕ
  -- atoi on a value that does not fit an int, which the C standard leaves undefined
  pub atoi_overflow : Bytes → ℤ
