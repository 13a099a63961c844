-- ===== src/StateImage/RoundTrip.antt =====
-- The state file that `SaveStateAtomic` writes is the one that `InitializeStateStorage` accepts.
use fresh_core_native.Prelude.{
  ℕ, ◌+◌, ◌*◌, ◌%◌, ◌<◌, ◌≡◌, refl, List, [], ◌∷◌, ◌++◌, take_all, arith, length, drop,
  length-append, All, u32, Bytes, append-nil,
}
use fresh_core_native.CacheData.{PackageState}
use fresh_core_native.StateImage.{
  StateHeader, loaded, state_bytes, states_bytes, header_bytes, save_header, read_header,
  read_state, read_states, load_body, load_file, calculate_checksum, checksum_from,
}
use fresh_core_native.StateImage.Words.{from_le-le_bytes}

-- Every field is within its C++ type.
pub record FitsWords (st : PackageState) : Type 0 where
  pub hash : st.hash < 4294967296
  pub last_scan_ms : st.last_scan_ms < 18446744073709551616
  pub last_cleanup_ms : st.last_cleanup_ms < 18446744073709551616
  pub last_size_bytes : st.last_size_bytes < 18446744073709551616
  pub cleanup_count : st.cleanup_count < 4294967296
  pub growth_rate_bytes_per_day : st.growth_rate_bytes_per_day < 4294967296

read_state-state_bytes :
    (padding : ℕ) (st : PackageState) (rest : Bytes)
    → FitsWords st
    → read_state (state_bytes padding st ++ rest) ≡ st
unfolding read_state state_bytes
read_state-state_bytes padding st rest f = λ i. record {
  hash = from_le-le_bytes 4 st.hash f.hash i;
  last_scan_ms = from_le-le_bytes 8 st.last_scan_ms f.last_scan_ms i;
  last_cleanup_ms = from_le-le_bytes 8 st.last_cleanup_ms f.last_cleanup_ms i;
  last_size_bytes = from_le-le_bytes 8 st.last_size_bytes f.last_size_bytes i;
  cleanup_count = from_le-le_bytes 4 st.cleanup_count f.cleanup_count i;
  growth_rate_bytes_per_day =
      from_le-le_bytes 4 st.growth_rate_bytes_per_day f.growth_rate_bytes_per_day i;
}

length-state_bytes : (padding : ℕ) (st : PackageState) → length (state_bytes padding st) ≡ 40
unfolding state_bytes
length-state_bytes padding st = refl

pub length-states_bytes :
    (padding : ℕ → ℕ) (i : ℕ) (sts : List PackageState)
    → length (states_bytes padding i sts) ≡ length sts * 40
unfolding states_bytes
length-states_bytes padding i [] = omega arith
length-states_bytes padding i (st ∷ sts) = omega (
  arith,
  length-append (state_bytes (padding i) st) (states_bytes padding (i + 1) sts),
  length-state_bytes (padding i) st,
  length-states_bytes padding (i + 1) sts,
)

read_states-states_bytes :
    (padding : ℕ → ℕ) (i : ℕ) (sts : List PackageState) (rest : Bytes)
    → All FitsWords sts
    → read_states (length sts) (states_bytes padding i sts ++ rest) ≡ sts
unfolding read_states states_bytes
read_states-states_bytes padding i [] rest f = refl
read_states-states_bytes padding i (st ∷ sts) rest f = λ i'.
    read_state-state_bytes (padding i) st (states_bytes padding (i + 1) sts ++ rest) f.0 i'
    ∷ read_states-states_bytes padding (i + 1) sts rest f.1 i'

-- The header's words, each within its type, are read back.
read_header-header_bytes :
    (h : StateHeader) (rest : Bytes)
    → h.magic < 4294967296
    → h.version < 4294967296
    → h.timestamp < 18446744073709551616
    → h.entry_count < 4294967296
    → h.checksum < 4294967296
    → read_header (header_bytes h ++ rest) ≡ h
unfolding read_header header_bytes
read_header-header_bytes h rest a b c d e = λ i. record {
  magic = from_le-le_bytes 4 h.magic a i;
  version = from_le-le_bytes 4 h.version b i;
  timestamp = from_le-le_bytes 8 h.timestamp c i;
  entry_count = from_le-le_bytes 4 h.entry_count d i;
  checksum = from_le-le_bytes 4 h.checksum e i;
}

drop-header_bytes : (h : StateHeader) (rest : Bytes) → drop 24 (header_bytes h ++ rest) ≡ rest
unfolding header_bytes
drop-header_bytes h rest = refl

length-header_bytes :
    (h : StateHeader) (rest : Bytes) → length (header_bytes h ++ rest) ≡ 24 + length rest
unfolding header_bytes
length-header_bytes h rest = omega arith

-- The loop's uint32_t sum is the sum of the bytes modulo 2 ^ 32.
abbrev pub byte_sum : Bytes → ℕ
byte_sum [] = 0
byte_sum (b ∷ s) = b + byte_sum s

checksum_from-byte_sum :
    (sum : ℕ) (s : Bytes) → sum < 4294967296 → checksum_from sum s ≡ (sum + byte_sum s) % 4294967296
unfolding checksum_from
checksum_from-byte_sum sum [] h = omega arith
checksum_from-byte_sum sum (b ∷ s) h =
    omega (arith, checksum_from-byte_sum (u32 (sum + b)) s (omega arith))

-- The checksum of any bytes, added up in uint32_t, is their sum modulo 2 ^ 32.
pub calculate_checksum-byte_sum : (s : Bytes) → calculate_checksum s ≡ byte_sum s % 4294967296
unfolding calculate_checksum
calculate_checksum-byte_sum s = omega (arith, checksum_from-byte_sum 0 s)

-- The whole file: the header, then the vector.
abbrev pub file_bytes : ℕ → (ℕ → ℕ) → List PackageState → Bytes
file_bytes timestamp padding sts =
    header_bytes (save_header timestamp padding sts) ++ states_bytes padding 0 sts

module _ (timestamp : ℕ) (padding : ℕ → ℕ) (sts : List PackageState) (few : length sts < 4294967296)
    (time_fits : timestamp < 18446744073709551616) where
  abbrev header : StateHeader
  header = save_header timestamp padding sts

  read_header-file_bytes : (body : Bytes) → read_header (header_bytes header ++ body) ≡ header
  unfolding save_header
  read_header-file_bytes body =
      read_header-header_bytes header body (omega arith) (omega arith) time_fits (omega arith)
        (omega (arith, calculate_checksum-byte_sum (states_bytes padding 0 sts)))

  -- With any vector behind the header that was saved, the load is decided by the vector.
  pub load_file-load_body :
      (body : Bytes) → load_file (header_bytes header ++ body) ≡ load_body header body
  unfolding load_file save_header
  load_file-load_body body =
      rw
        (
          length-header_bytes header body,
          read_header-file_bytes body,
          drop-header_bytes header body,
        )
        (ground arith)

  -- A file that was saved from fewer than 2^32 states, with a timestamp below 2^64 and every field
  -- within its C++ type, is loaded with the same states in the same order.
  pub load_file-file_bytes :
      All FitsWords sts → load_file (file_bytes timestamp padding sts) ≡ loaded sts
  unfolding load_body save_header
  load_file-file_bytes fits =
      let body = states_bytes padding 0 sts in
      let counted : u32 (length sts) ≡ length sts = omega arith in
      let size : length body ≡ length sts * 40 = length-states_bytes padding 0 sts in
      let same : read_states (length sts) (body ++ []) ≡ sts =
        read_states-states_bytes padding 0 sts [] fits in
      rw (load_file-load_body, counted, size, take_all (length sts * 40) body size)
        (ground (arith, rw append-nil at same))
