-- ===== src/Config.antt =====
-- config/config.hpp and config/config.cpp: the configuration and its file.
pub mod File
pub mod Decimal
use fresh_core_native.Prelude.{
  ℕ, ◌+◌, ◌-◌, ◌*◌, Bytes, bytes, bytes_eq, is_empty, ℤ, pos, int_of_neg, Bool, true, false, ◌&&◌,
  ◌||◌, Option, none, some, List, [], ◌∷◌, ltb, leb, ◌==◌, if◌then◌else◌,
}

pub record Configuration : Type 0 where
  pub enabled : Bool
  pub cache_threshold_mb : ℤ
  pub include_user_apps : Bool
  pub include_system_apps : Bool
  pub include_external_cache : Bool
  pub idle_required : Bool
  pub idle_delay_minutes : ℤ
  pub charging_preferred : Bool
  pub minimum_battery_percent : ℤ
  pub thermal_protection : Bool
  pub adaptive_scanning : Bool
  pub logging_debug : Bool
  pub max_cleanup_mb_per_run : ℤ
  pub max_files_per_batch : ℤ
  pub max_batch_time_ms : ℤ
  pub check_interval_active_sec : ℤ
  pub check_interval_screen_off_sec : ℤ
  pub check_interval_deep_idle_sec : ℤ

-- The member initialisers of `Configuration`.
abbrev pub default_configuration : Configuration
default_configuration = record {
  enabled = true;
  cache_threshold_mb = pos 100;
  include_user_apps = true;
  include_system_apps = true;
  include_external_cache = true;
  idle_required = true;
  idle_delay_minutes = pos 15;
  charging_preferred = true;
  minimum_battery_percent = pos 25;
  thermal_protection = true;
  adaptive_scanning = true;
  logging_debug = false;
  max_cleanup_mb_per_run = pos 2048;
  max_files_per_batch = pos 128;
  max_batch_time_ms = pos 250;
  check_interval_active_sec = pos 1800;
  check_interval_screen_off_sec = pos 300;
  check_interval_deep_idle_sec = pos 60;
}

-- A byte of " \t\r\n".
abbrev pub is_blank : ℕ → Bool
is_blank c = c == 32 || c == 9 || c == 13 || c == 10

unfoldable pub trim_left : Bytes → Bytes
trim_left [] = []
trim_left (c ∷ s) = let rest = trim_left s in if is_blank c then rest else c ∷ s

unfoldable pub trim_right : Bytes → Bytes
trim_right [] = []
trim_right (c ∷ s) = let rest = trim_right s in if is_blank c && is_empty rest then [] else c ∷ rest

unfoldable pub trim : Bytes → Bytes
unfolding trim_left trim_right
trim s = trim_right (trim_left s)

-- std::getline to the end of the file.
abbrev pub push_byte : ℕ → List Bytes → List Bytes
push_byte c [] = (c ∷ []) ∷ []
push_byte c (l ∷ ls) = (c ∷ l) ∷ ls

unfoldable pub lines : Bytes → List Bytes
lines [] = []
lines (c ∷ s) = let rest = lines s in if c == 10 then [] ∷ rest else push_byte c rest

-- line.find('=') with the two substr calls: the bytes before the first '=', and those after it.
unfoldable pub split_at_equals : Bytes → Option (Bytes × Bytes)
split_at_equals [] = none
split_at_equals (c ∷ s) =
    let rest = split_at_equals s in
    if c == b'=' then some ([], s) else elim rest [ none ↦ none | some (k, v) ↦ some (c ∷ k, v) ]

-- std::atoi: white space, a sign, and decimal digits up to the first other byte.
abbrev pub is_digit : ℕ → Bool
is_digit c = leb b'0' c && leb c b'9'

abbrev pub is_c_space : ℕ → Bool
is_c_space c = c == 32 || leb 9 c && leb c 13

unfoldable pub skip_space : Bytes → Bytes
skip_space [] = []
skip_space (c ∷ s) = let rest = skip_space s in if is_c_space c then rest else c ∷ s

unfoldable pub digits_value : ℕ → Bytes → ℕ
digits_value n [] = n
digits_value n (c ∷ s) =
    let rest = digits_value (n * 10 + (c - b'0')) s in if is_digit c then rest else n

-- value == "true" || value == "1"
unfoldable pub is_true : Bytes → Bool
unfolding bytes_eq bytes
is_true value = bytes_eq value (bytes "true") || bytes_eq value (bytes "1")

module _ (overflow : Bytes → ℤ) where
  -- the value with its sign, where it fits an int
  unfoldable pub signed : Bytes → Bool → ℕ → ℤ
  signed s true n = if leb n 2147483648 then int_of_neg n else overflow s
  signed s false n = if ltb n 2147483648 then pos n else overflow s

  unfoldable pub after_sign : Bytes → Bytes → ℤ
  unfolding signed digits_value
  after_sign whole [] = pos 0
  after_sign whole (c ∷ s) =
      if c == b'-'
      then signed whole true (digits_value 0 s)
      else if c == b'+'
      then signed whole false (digits_value 0 s)
      else signed whole false (digits_value 0 (c ∷ s))

  unfoldable pub atoi : Bytes → ℤ
  unfolding after_sign skip_space
  atoi s = after_sign s (skip_space s)
