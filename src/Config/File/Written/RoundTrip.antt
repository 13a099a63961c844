-- ===== src/Config/File/Written/RoundTrip.antt =====
-- `LoadConfig` of config/config.cpp reads a written configuration back.
use fresh_core_native.Prelude.{
  ℕ, suc, not, ◌&&◌, ◌||◌, ◌==◌, ◌≡◌, refl, ap, ◌∙◌, Bytes, bytes, ℤ, pos, negsuc, Bool, true,
  false, Option, some, List, [], ◌∷◌, All, arith,
}
use fresh_core_native.Config.{Configuration, is_blank, lines, is_true}
use fresh_core_native.Config.Decimal.{IsDigit, digits, digits-All, int_text, atoi-int_text}
use fresh_core_native.Config.File.{
  key_enabled, key_cache_threshold_mb, key_include_user_apps, key_include_system_apps,
  key_include_external_cache, key_idle_required, key_idle_delay_minutes, key_charging_preferred,
  key_minimum_battery_percent, key_thermal_protection, key_adaptive_scanning, key_logging,
  key_max_cleanup_mb_per_run, key_max_files_per_batch, key_max_batch_time_ms, Key, key_of,
  assign_key, load_line, load_lines, load_config,
}
use fresh_core_native.Os.{Env}
use fresh_core_native.Sys.{Sys}
use fresh_core_native.Config.File.Effects.{load_config-succeeds, load_config-config}
use fresh_core_native.Config.File.Intervals.{SameIntervals}
use fresh_core_native.Config.File.Written.{
  bool_text, key_text, value_text, all_keys, line_text, keys_text, config_text, FitsInts,
}
use fresh_core_native.Config.File.Written.Trim.{
  IsSolid, IsKeyByte, lines_line, line-IsSolid, load_line_key,
}

are_key_bytes : Bytes → Bool
are_key_bytes [] = true
are_key_bytes (c ∷ s) = not (is_blank c || c == b'=' || c == b'#') && are_key_bytes s

are_key_bytes_sound : (s : Bytes) → are_key_bytes s ≡ true → All IsKeyByte s
unfolding are_key_bytes
are_key_bytes_sound [] h = tt
are_key_bytes_sound (c ∷ s) h = ground (arith, are_key_bytes_sound s)

-- The comparisons of `LoadConfig` find each key by its text, which has no blank, '=' or '#'.
IsFound : Key → Type 0
IsFound key = (key_of (key_text key) ≡ some key) × (are_key_bytes (key_text key) ≡ true)

key_text-IsFound : (key : Key) → IsFound key
unfolding IsFound key_of key_text are_key_bytes
key_text-IsFound key_enabled = (refl, refl)
key_text-IsFound key_cache_threshold_mb = (refl, refl)
key_text-IsFound key_include_user_apps = (refl, refl)
key_text-IsFound key_include_system_apps = (refl, refl)
key_text-IsFound key_include_external_cache = (refl, refl)
key_text-IsFound key_idle_required = (refl, refl)
key_text-IsFound key_idle_delay_minutes = (refl, refl)
key_text-IsFound key_charging_preferred = (refl, refl)
key_text-IsFound key_minimum_battery_percent = (refl, refl)
key_text-IsFound key_thermal_protection = (refl, refl)
key_text-IsFound key_adaptive_scanning = (refl, refl)
key_text-IsFound key_logging = (refl, refl)
key_text-IsFound key_max_cleanup_mb_per_run = (refl, refl)
key_text-IsFound key_max_files_per_batch = (refl, refl)
key_text-IsFound key_max_batch_time_ms = (refl, refl)

key_text-IsKeyByte : (key : Key) → All IsKeyByte (key_text key)
unfolding IsFound
key_text-IsKeyByte key = are_key_bytes_sound (key_text key) (key_text-IsFound key).1

is_true-bool_text : (b : Bool) → is_true (bool_text b) ≡ b
unfolding is_true bool_text
is_true-bool_text true = refl
is_true-bool_text false = refl

bool_text-IsSolid : (b : Bool) → All IsSolid (bool_text b)
unfolding bool_text bytes
bool_text-IsSolid true = (refl, (refl, (refl, (refl, tt))))
bool_text-IsSolid false = (refl, (refl, (refl, (refl, (refl, tt)))))

digit-IsSolid : (c : ℕ) → IsDigit c → IsSolid c
digit-IsSolid c h = ground arith

digits-IsSolid : (n : ℕ) → All IsSolid (digits 10 n [])
digits-IsSolid n = digits-All IsSolid digit-IsSolid 10 n [] tt

int_text-IsSolid : (i : ℤ) → All IsSolid (int_text i)
unfolding int_text
int_text-IsSolid (pos n) = digits-IsSolid n
int_text-IsSolid (negsuc n) = (refl, digits-IsSolid (suc n))

value_text-IsSolid : (key : Key) (c : Configuration) → All IsSolid (value_text key c)
unfolding value_text
value_text-IsSolid key_enabled c = bool_text-IsSolid c.enabled
value_text-IsSolid key_cache_threshold_mb c = int_text-IsSolid c.cache_threshold_mb
value_text-IsSolid key_include_user_apps c = bool_text-IsSolid c.include_user_apps
value_text-IsSolid key_include_system_apps c = bool_text-IsSolid c.include_system_apps
value_text-IsSolid key_include_external_cache c = bool_text-IsSolid c.include_external_cache
value_text-IsSolid key_idle_required c = bool_text-IsSolid c.idle_required
value_text-IsSolid key_idle_delay_minutes c = int_text-IsSolid c.idle_delay_minutes
value_text-IsSolid key_charging_preferred c = bool_text-IsSolid c.charging_preferred
value_text-IsSolid key_minimum_battery_percent c = int_text-IsSolid c.minimum_battery_percent
value_text-IsSolid key_thermal_protection c = bool_text-IsSolid c.thermal_protection
value_text-IsSolid key_adaptive_scanning c = bool_text-IsSolid c.adaptive_scanning
value_text-IsSolid key_logging c = bool_text-IsSolid c.logging_debug
value_text-IsSolid key_max_cleanup_mb_per_run c = int_text-IsSolid c.max_cleanup_mb_per_run
value_text-IsSolid key_max_files_per_batch c = int_text-IsSolid c.max_files_per_batch
value_text-IsSolid key_max_batch_time_ms c = int_text-IsSolid c.max_batch_time_ms

module _ (overflow : Bytes → ℤ) where
  -- Each key of the list takes its value from `c`.
  unfoldable pub assign_keys : List Key → Configuration → Configuration → Configuration
  unfolding assign_key
  assign_keys [] c d = d
  assign_keys (key ∷ keys) c d =
      assign_keys keys c (assign_key overflow (some key) (value_text key c) d)

  line_text-IsSolid : (key : Key) (c : Configuration) → All IsSolid (line_text key c)
  line_text-IsSolid key c =
      line-IsSolid (key_text key) (value_text key c) (key_text-IsKeyByte key)
        (value_text-IsSolid key c)

  load_line_text :
      (key : Key) (c d : Configuration)
      → load_line overflow (line_text key c) d ≡ assign_key overflow (some key) (value_text key c) d
  unfolding IsFound
  load_line_text key c d =
      load_line_key overflow (key_text key) (value_text key c) d (key_text-IsKeyByte key)
        (value_text-IsSolid key c)
      ∙ ap (λ (k : Option Key). assign_key overflow k (value_text key c) d) (key_text-IsFound key).0

  load_lines-keys_text :
      (keys : List Key) (c d : Configuration)
      → load_lines overflow (lines (keys_text keys c)) d ≡ assign_keys keys c d
  unfolding keys_text load_lines lines assign_keys
  load_lines-keys_text [] c d = refl
  load_lines-keys_text (key ∷ keys) c d =
      ap (λ (ls : List Bytes). load_lines overflow ls d)
        (lines_line (line_text key c) (keys_text keys c) (line_text-IsSolid key c))
      ∙ (ap (load_lines overflow (lines (keys_text keys c))) (load_line_text key c d)
          ∙ load_lines-keys_text keys c _)

  -- The configuration with every field read from its text, and the intervals of `d`.
  assign_keys-all_keys :
      (c d : Configuration) → FitsInts c → SameIntervals c d → assign_keys all_keys c d ≡ c
  unfolding assign_keys assign_key value_text
  assign_keys-all_keys c d fits same = λ i. record {
    enabled = is_true-bool_text c.enabled i;
    cache_threshold_mb = atoi-int_text overflow c.cache_threshold_mb fits.threshold i;
    include_user_apps = is_true-bool_text c.include_user_apps i;
    include_system_apps = is_true-bool_text c.include_system_apps i;
    include_external_cache = is_true-bool_text c.include_external_cache i;
    idle_required = is_true-bool_text c.idle_required i;
    idle_delay_minutes = atoi-int_text overflow c.idle_delay_minutes fits.delay i;
    charging_preferred = is_true-bool_text c.charging_preferred i;
    minimum_battery_percent = atoi-int_text overflow c.minimum_battery_percent fits.battery i;
    thermal_protection = is_true-bool_text c.thermal_protection i;
    adaptive_scanning = is_true-bool_text c.adaptive_scanning i;
    logging_debug = is_true-bool_text c.logging_debug i;
    max_cleanup_mb_per_run = atoi-int_text overflow c.max_cleanup_mb_per_run fits.cleanup i;
    max_files_per_batch = atoi-int_text overflow c.max_files_per_batch fits.files i;
    max_batch_time_ms = atoi-int_text overflow c.max_batch_time_ms fits.time i;
    check_interval_active_sec = same.active i;
    check_interval_screen_off_sec = same.screen_off i;
    check_interval_deep_idle_sec = same.deep_idle i;
  }

  load_lines-config_text :
      (c d : Configuration)
      → FitsInts c
      → SameIntervals c d
      → load_lines overflow (lines (config_text c)) d ≡ c
  load_lines-config_text c d fits same =
      load_lines-keys_text all_keys c d ∙ assign_keys-all_keys c d fits same

module _ ⦃env : Env⦄ where
  -- Where the file can be read and holds a line for each key with the value that a configuration has
  -- for it, whose integers fit an int and whose intervals of the timer are those in use, LoadConfig
  -- succeeds and the configuration in use is that one.
  pub load_config-config_text :
      (path : Bytes) (c : Configuration) (s : Sys)
      → FitsInts c
      → SameIntervals c s.config
      → env.file s.calls path ≡ some (config_text c)
      → ((load_config path s).0 ≡ true) × ((load_config path s).1.config ≡ c)
  load_config-config_text path c s fits same e = (
    load_config-succeeds path (config_text c) s e,
    load_config-config path (config_text c) s e
        ∙ load_lines-config_text env.atoi_overflow c s.config fits same,
  )
