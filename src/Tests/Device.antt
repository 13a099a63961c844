-- ===== src/Tests/Device.antt =====
-- A device with one plain file in /c and one directory in /data/tombstones, whose screen is off, and
-- an insertion sort for std::sort.
use fresh_core_native.Prelude.{
  ◌*◌, ◌/◌, ◌≡◌, refl, inl, inr, Bytes, bytes, bytes_eq, contains, pos, Bool, true, false, not,
  ◌&&◌, none, some, List, [], ◌∷◌, length, ltb, Bool-cases, if◌then◌else◌, arith,
}
use mathlib.Core.List.{Permᴰ}
use mathlib.Core.List.Permᴰ
use fresh_core_native.StateImage.RoundTrip.{FitsWords}
use fresh_core_native.StateStorage.Restore.{WellKeyed}
use fresh_core_native.CacheData.{PackageState, find, MaintenanceTarget}
use fresh_core_native.Os.{Env, History}
use fresh_core_native.Filesystem.Limits.{PathLimit}
use fresh_core_native.Cache.Analyzer.Order.{Less, IsStrictWeak, Ordered, OrderedFrom, Sorts}

abbrev insert : Less → MaintenanceTarget → List MaintenanceTarget → List MaintenanceTarget
insert less t [] = t ∷ []
insert less t (u ∷ us) = let rest = insert less t us in if less u t then u ∷ rest else t ∷ u ∷ us

abbrev insertion_sort : Less → List MaintenanceTarget → List MaintenanceTarget
insertion_sort less [] = []
insertion_sort less (t ∷ ts) = insert less t (insertion_sort less ts)

module _ (less : Less) where
  insert-Permᴰ :
      (t : MaintenanceTarget) (us : List MaintenanceTarget) → Permᴰ (t ∷ us) (insert less t us)
  insert-Permᴰ t [] = Permᴰ.refl _
  insert-Permᴰ t (u ∷ us) = elim (Bool-cases (less u t)) [
    | inl e ↦ rw e (Permᴰ.trans (Permᴰ.swap refl refl) (Permᴰ.cons refl (insert-Permᴰ t us)))
    | inr e ↦ rw e (Permᴰ.refl (t ∷ u ∷ us))
  ]

  insertion_sort-Permᴰ : (ts : List MaintenanceTarget) → Permᴰ ts (insertion_sort less ts)
  insertion_sort-Permᴰ [] = Permᴰ.nil
  insertion_sort-Permᴰ (t ∷ ts) =
      Permᴰ.trans (Permᴰ.cons refl (insertion_sort-Permᴰ ts))
        (insert-Permᴰ t (insertion_sort less ts))

  module _ (weak : IsStrictWeak less) where
    insert-OrderedFrom :
        (p t : MaintenanceTarget) (us : List MaintenanceTarget)
        → less t p ≡ false
        → OrderedFrom less p us
        → OrderedFrom less p (insert less t us)
    insert-OrderedFrom p t [] h hs = (h, tt)
    insert-OrderedFrom p t (u ∷ us) h hs = elim (Bool-cases (less u t)) [
      | inl e ↦ rw e (hs.0, insert-OrderedFrom u t us (weak.asymmetric u t e) hs.1)
      | inr e ↦ rw e (h, (e, hs.1))
    ]

    insert-Ordered :
        (t : MaintenanceTarget) (us : List MaintenanceTarget)
        → Ordered less us
        → Ordered less (insert less t us)
    insert-Ordered t [] h = tt
    insert-Ordered t (u ∷ us) h = elim (Bool-cases (less u t)) [
      | inl e ↦ rw e (insert-OrderedFrom u t us (weak.asymmetric u t e) h)
      | inr e ↦ rw e (e, h)
    ]

    insertion_sort-Ordered : (ts : List MaintenanceTarget) → Ordered less (insertion_sort less ts)
    insertion_sort-Ordered [] = tt
    insertion_sort-Ordered (t ∷ ts) =
        insert-Ordered t (insertion_sort less ts) (insertion_sort-Ordered ts)

pub insertion_sort-Sorts : Sorts insertion_sort
insertion_sort-Sorts = record {
  permutes = λ less weak ts. insertion_sort-Permᴰ less ts;
  ordered = λ less weak ts. insertion_sort-Ordered less weak ts;
}

-- Paths of PATH_MAX bytes are refused, and text files are no directories.
abbrev opens_dir : History → Bytes → Bool
opens_dir h path = ltb (length path) 4096 && not (contains (bytes ".txt") path)

abbrev names_in : History → Bytes → List Bytes
names_in h path =
    if bytes_eq path (bytes "/c")
    then bytes "." ∷ bytes "a.txt" ∷ []
    else if bytes_eq path (bytes "/data/tombstones")
    then bytes "t" ∷ []
    else []

abbrev pub device : Env
device = record {
  file = λ h path. some (bytes "0");
  writable = λ h path. true;
  pipe = λ h command. none;
  stat = λ h path. some (record { is_dir = true; size = 4096; mtime = 0 });
  lstat = λ h path. some (record { is_dir = true; size = 4096; mtime = 0 });
  realpath = λ h path. some path;
  open_dir = opens_dir;
  opendir = opens_dir;
  fdopendir = λ h path. true;
  entries = names_in;
  rmdir = λ h path. true;
  unlink = λ h path. true;
  open_file = λ h path. true;
  fitrim = λ h path. some 0;
  realtime = λ h. record { tv_sec = 1700000000; tv_nsec = 0 };
  monotonic = λ h. record { tv_sec = 5000; tv_nsec = 0 };
  cputime = λ h. none;
  page_size = 4096;
  time = λ h. 1700000000;
  allocates = λ h n. ltb n 1000000000;
  fopen = λ h path. true;
  fstat = λ h path. some 0;
  rename = λ h old new. true;
  timerfd_read = λ h. true;
  epoll_create = λ h. true;
  timerfd_create = λ h. true;
  epoll_add = λ h. true;
  exists = λ h path. true;
  is_directory = λ h path. true;
  listing = λ h path. bytes "sda" ∷ [];
  statvfs = λ h path. some (record { f_blocks = 100; f_frsize = 4096; f_bavail = 50 });
  inotify_init = λ h. true;
  inotify_add_watch = λ h path. true;
  walk = λ m. m;
  padding = λ i. 0;
  sort = insertion_sort;
  scan_float = λ format s. none;
  float_gt = λ a b. false;
  scan_u64 = λ format s. none;
  percent = λ free total. free * 100 / total;
  atoi_overflow = λ s. pos 0;
}

pub device-PathLimit : PathLimit device.open_dir
device-PathLimit = record { too_long = λ h path long. ground arith }

abbrev pub a_state : PackageState
a_state = record {
  hash = 1;
  last_scan_ms = 0;
  last_cleanup_ms = 0;
  last_size_bytes = 0;
  cleanup_count = 0;
  growth_rate_bytes_per_day = 0;
}

pub a_state-FitsWords : FitsWords a_state
a_state-FitsWords = record {
  hash = omega arith;
  last_scan_ms = omega arith;
  last_cleanup_ms = omega arith;
  last_size_bytes = omega arith;
  cleanup_count = omega arith;
  growth_rate_bytes_per_day = omega arith;
}

pub a_state-WellKeyed : WellKeyed ((1, a_state) ∷ [])
unfolding find
a_state-WellKeyed = (refl, (refl, tt))
