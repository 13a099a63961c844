-- ===== src/StateImage/Corruption.antt =====
-- A state file that was damaged after it was saved is refused.
use fresh_core_native.Prelude.{
  ℕ, ◌+◌, ◌*◌, ◌<◌, ◌≡◌, ◌≢◌, ap, List, [], ◌∷◌, ◌++◌, arith, length, take_all, length-append,
  Bytes, u32,
}
use fresh_core_native.CacheData.{PackageState}
use fresh_core_native.StateImage.{
  truncated, corrupt, states_bytes, header_bytes, save_header, load_body, load_file,
  calculate_checksum,
}
use fresh_core_native.StateImage.RoundTrip.{
  length-states_bytes, byte_sum, calculate_checksum-byte_sum, load_file-load_body,
}

byte_sum-append : (s t : Bytes) → byte_sum (s ++ t) ≡ byte_sum s + byte_sum t
byte_sum-append [] t = omega arith
byte_sum-append (b ∷ s) t = omega (arith, byte_sum-append s t)

-- Two files that differ in one byte have different checksums.
checksum_ne :
    (before after : Bytes) (b c : ℕ)
    → b < 256
    → c < 256
    → b ≢ c
    → calculate_checksum (before ++ c ∷ after) ≢ calculate_checksum (before ++ b ∷ after)
checksum_ne before after b c hb hc ne = omega (
  arith,
  calculate_checksum-byte_sum (before ++ c ∷ after),
  calculate_checksum-byte_sum (before ++ b ∷ after),
  byte_sum-append before (c ∷ after),
  byte_sum-append before (b ∷ after),
)

module _ (timestamp : ℕ) (padding : ℕ → ℕ) (sts : List PackageState) (few : length sts < 4294967296)
    (time_fits : timestamp < 18446744073709551616) where
  -- A file that was saved from fewer than 2^32 states, with a timestamp below 2^64, and whose vector
  -- was then cut short at any byte, is refused as truncated.
  pub load_file_truncated :
      (kept lost : Bytes) (b : ℕ)
      → states_bytes padding 0 sts ≡ kept ++ b ∷ lost
      → load_file (header_bytes (save_header timestamp padding sts) ++ kept) ≡ truncated
  unfolding load_body save_header
  load_file_truncated kept lost b e =
      let counted : u32 (length sts) ≡ length sts = omega arith in
      let short : length kept < length sts * 40 =
        omega
          (arith, length-states_bytes padding 0 sts, length-append kept (b ∷ lost), ap length e) in
      rw (load_file-load_body timestamp padding sts few time_fits kept, counted) (ground arith)

  -- A file that was saved from fewer than 2^32 states, with a timestamp below 2^64, and in whose
  -- vector one byte was then changed to another byte, is refused as corrupt.
  pub load_file_corrupt :
      (before after : Bytes) (b c : ℕ)
      → states_bytes padding 0 sts ≡ before ++ b ∷ after
      → b < 256
      → c < 256
      → b ≢ c
      → load_file (header_bytes (save_header timestamp padding sts) ++ (before ++ c ∷ after))
        ≡ corrupt
  unfolding load_body save_header
  load_file_corrupt before after b c e hb hc ne =
      let counted : u32 (length sts) ≡ length sts = omega arith in
      let size : length (before ++ c ∷ after) ≡ length sts * 40 = omega (
        arith,
        length-states_bytes padding 0 sts,
        length-append before (b ∷ after),
        length-append before (c ∷ after),
        ap length e,
      ) in
      rw
        (
          load_file-load_body timestamp padding sts few time_fits (before ++ c ∷ after),
          counted,
          size,
          take_all (length sts * 40) (before ++ c ∷ after) size,
          e,
        )
        (ground (arith, checksum_ne before after b c hb hc ne))
