-- ===== src/StateImage.antt =====
-- The bytes of the state file of cache/state_storage.cpp: structs laid out as on ARM64, little
-- endian, a PackageState in 40 bytes with 4 bytes of padding after its hash.
pub mod Words
pub mod RoundTrip
pub mod Corruption
use Prim.Native.Nat.{bit_xor}
use fresh_core_native.Prelude.{
  ℕ, zero, suc, ◌+◌, ◌*◌, ◌/◌, ◌%◌, Bytes, u32, Bool, true, false, not, ◌||◌, List, [], ◌∷◌, ◌++◌,
  length, take, drop, ltb, ◌==◌, if◌then◌else◌,
}
use fresh_core_native.CacheData.{PackageState, States, assign}

-- "FRSH"
abbrev pub state_magic : ℕ
state_magic = 0x46525348

abbrev pub state_version : ℕ
state_version = 1

pub record StateHeader : Type 0 where
  pub magic : ℕ  -- uint32_t
  pub version : ℕ  -- uint32_t
  pub timestamp : ℕ  -- uint64_t
  pub entry_count : ℕ  -- uint32_t
  pub checksum : ℕ  -- uint32_t

-- FNV-1a in uint32_t, over the bytes of the name.
unfoldable pub hash_from : ℕ → Bytes → ℕ
hash_from hash [] = hash
hash_from hash (c ∷ s) = hash_from (u32 (bit_xor hash c * 16777619)) s

unfoldable pub hash_package_name : Bytes → ℕ
unfolding hash_from
hash_package_name name = hash_from 2166136261 name

-- The `w` bytes of a word.
unfoldable pub le_bytes : ℕ → ℕ → Bytes
le_bytes zero n = []
le_bytes (suc w) n = (n % 256) ∷ le_bytes w (n / 256)

unfoldable pub from_le : Bytes → ℕ
from_le [] = 0
from_le (b ∷ s) = b + 256 * from_le s

unfoldable pub state_bytes : ℕ → PackageState → Bytes
unfolding le_bytes
state_bytes padding st =
    le_bytes 4 st.hash
    ++ (le_bytes 4 padding
        ++ (le_bytes 8 st.last_scan_ms
            ++ (le_bytes 8 st.last_cleanup_ms
                ++ (le_bytes 8 st.last_size_bytes
                    ++ (le_bytes 4 st.cleanup_count ++ le_bytes 4 st.growth_rate_bytes_per_day)))))

-- The memory of a vector of states, the i-th with the padding `padding i`.
unfoldable pub states_bytes : (ℕ → ℕ) → ℕ → List PackageState → Bytes
unfolding state_bytes
states_bytes padding i [] = []
states_bytes padding i (st ∷ sts) = state_bytes (padding i) st ++ states_bytes padding (i + 1) sts

-- The loop of `CalculateChecksum`, which adds the bytes in uint32_t.
unfoldable pub checksum_from : ℕ → Bytes → ℕ
checksum_from sum [] = sum
checksum_from sum (b ∷ s) = checksum_from (u32 (sum + b)) s

unfoldable pub calculate_checksum : Bytes → ℕ
unfolding checksum_from
calculate_checksum image = checksum_from 0 image

unfoldable pub header_bytes : StateHeader → Bytes
unfolding le_bytes
header_bytes h =
    le_bytes 4 h.magic
    ++ (le_bytes 4 h.version
        ++ (le_bytes 8 h.timestamp ++ (le_bytes 4 h.entry_count ++ le_bytes 4 h.checksum)))

-- The header that `SaveStateAtomic` writes before the vector.
unfoldable pub save_header : ℕ → (ℕ → ℕ) → List PackageState → StateHeader
save_header timestamp padding sts = record {
  magic = state_magic;
  version = state_version;
  timestamp = timestamp;
  entry_count = u32 (length sts);
  checksum = calculate_checksum (states_bytes padding 0 sts);
}

-- A word of `w` bytes at the front of the file.
abbrev pub word_at : ℕ → ℕ → Bytes → ℕ
word_at offset w s = from_le (take w (drop offset s))

unfoldable pub read_header : Bytes → StateHeader
unfolding from_le
read_header s = record {
  magic = word_at 0 4 s;
  version = word_at 4 4 s;
  timestamp = word_at 8 8 s;
  entry_count = word_at 16 4 s;
  checksum = word_at 20 4 s;
}

unfoldable pub read_state : Bytes → PackageState
unfolding from_le
read_state s = record {
  hash = word_at 0 4 s;
  last_scan_ms = word_at 8 8 s;
  last_cleanup_ms = word_at 16 8 s;
  last_size_bytes = word_at 24 8 s;
  cleanup_count = word_at 32 4 s;
  growth_rate_bytes_per_day = word_at 36 4 s;
}

unfoldable pub read_states : ℕ → Bytes → List PackageState
unfolding read_state
read_states zero s = []
read_states (suc n) s = read_state s ∷ read_states n (drop 40 s)

-- How `InitializeStateStorage` ends: one case for each return.
pub data LoadResult : Type 0 where
  no_header mismatch truncated corrupt : LoadResult
  loaded : List PackageState → LoadResult

unfoldable pub load_body : StateHeader → Bytes → LoadResult
load_body h body =
    if ltb (length body) (h.entry_count * 40)
    then truncated
    else if not (calculate_checksum (take (h.entry_count * 40) body) == h.checksum)
    then corrupt
    else loaded (read_states h.entry_count body)

unfoldable pub load_file : Bytes → LoadResult
load_file s =
    if ltb (length s) 24
    then no_header
    else if not ((read_header s).magic == state_magic)
        || not ((read_header s).version == state_version)
    then mismatch
    else load_body (read_header s) (drop 24 s)

-- for (const auto& st : loaded_states) g_states[st.hash] = st;
unfoldable pub assign_all : List PackageState → States → States
unfolding assign
assign_all [] m = m
assign_all (st ∷ sts) m = assign_all sts (assign st.hash st m)
