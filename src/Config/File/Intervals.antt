-- ===== src/Config/File/Intervals.antt =====
-- No line of the configuration file sets an interval of the timer.
use fresh_core_native.Prelude.{
  ◌≡◌, refl, ◌∙◌, Bytes, ℤ, Bool, true, false, Option, none, some, List, [], ◌∷◌, if◌then◌else◌,
}
use fresh_core_native.Config.{Configuration, trim, split_at_equals}
use fresh_core_native.Config.File.{
  key_enabled, key_cache_threshold_mb, key_include_user_apps, key_include_system_apps,
  key_include_external_cache, key_idle_required, key_idle_delay_minutes, key_charging_preferred,
  key_minimum_battery_percent, key_thermal_protection, key_adaptive_scanning, key_logging,
  key_max_cleanup_mb_per_run, key_max_files_per_batch, key_max_batch_time_ms, Key, key_of,
  assign_key, assign_pair, load_line, load_lines,
}

-- The intervals of the timer are the same.
pub record SameIntervals (c d : Configuration) : Type 0 where
  pub active : d.check_interval_active_sec ≡ c.check_interval_active_sec
  pub screen_off : d.check_interval_screen_off_sec ≡ c.check_interval_screen_off_sec
  pub deep_idle : d.check_interval_deep_idle_sec ≡ c.check_interval_deep_idle_sec

unchanged : (c : Configuration) → SameIntervals c c
unchanged c = record { active = refl; screen_off = refl; deep_idle = refl }

same_if :
    (c : Configuration) (b : Bool) (d : Configuration)
    → SameIntervals c d
    → SameIntervals c (if b then c else d)
same_if c true d hd = unchanged c
same_if c false d hd = hd

module _ (overflow : Bytes → ℤ) where
  assign_key-SameIntervals :
      (key : Option Key) (value : Bytes) (c : Configuration)
      → SameIntervals c (assign_key overflow key value c)
  unfolding assign_key
  assign_key-SameIntervals none value c = unchanged c
  assign_key-SameIntervals (some key_enabled) value c = record {
    active = refl;
    screen_off = refl;
    deep_idle = refl;
  }
  assign_key-SameIntervals (some key_cache_threshold_mb) value c = record {
    active = refl;
    screen_off = refl;
    deep_idle = refl;
  }
  assign_key-SameIntervals (some key_include_user_apps) value c = record {
    active = refl;
    screen_off = refl;
    deep_idle = refl;
  }
  assign_key-SameIntervals (some key_include_system_apps) value c = record {
    active = refl;
    screen_off = refl;
    deep_idle = refl;
  }
  assign_key-SameIntervals (some key_include_external_cache) value c = record {
    active = refl;
    screen_off = refl;
    deep_idle = refl;
  }
  assign_key-SameIntervals (some key_idle_required) value c = record {
    active = refl;
    screen_off = refl;
    deep_idle = refl;
  }
  assign_key-SameIntervals (some key_idle_delay_minutes) value c = record {
    active = refl;
    screen_off = refl;
    deep_idle = refl;
  }
  assign_key-SameIntervals (some key_charging_preferred) value c = record {
    active = refl;
    screen_off = refl;
    deep_idle = refl;
  }
  assign_key-SameIntervals (some key_minimum_battery_percent) value c = record {
    active = refl;
    screen_off = refl;
    deep_idle = refl;
  }
  assign_key-SameIntervals (some key_thermal_protection) value c = record {
    active = refl;
    screen_off = refl;
    deep_idle = refl;
  }
  assign_key-SameIntervals (some key_adaptive_scanning) value c = record {
    active = refl;
    screen_off = refl;
    deep_idle = refl;
  }
  assign_key-SameIntervals (some key_logging) value c = record {
    active = refl;
    screen_off = refl;
    deep_idle = refl;
  }
  assign_key-SameIntervals (some key_max_cleanup_mb_per_run) value c = record {
    active = refl;
    screen_off = refl;
    deep_idle = refl;
  }
  assign_key-SameIntervals (some key_max_files_per_batch) value c = record {
    active = refl;
    screen_off = refl;
    deep_idle = refl;
  }
  assign_key-SameIntervals (some key_max_batch_time_ms) value c = record {
    active = refl;
    screen_off = refl;
    deep_idle = refl;
  }

  assign_pair-SameIntervals :
      (pair : Option (Bytes × Bytes)) (c : Configuration)
      → SameIntervals c (assign_pair overflow pair c)
  unfolding assign_pair
  assign_pair-SameIntervals none c = unchanged c
  assign_pair-SameIntervals (some (key, value)) c =
      assign_key-SameIntervals (key_of (trim key)) (trim value) c

  load_line-SameIntervals :
      (line : Bytes) (c : Configuration) → SameIntervals c (load_line overflow line c)
  unfolding load_line
  load_line-SameIntervals line c =
      same_if c _ _ (assign_pair-SameIntervals (split_at_equals (trim line)) c)

  -- No line of the file sets an interval.
  pub load_lines-SameIntervals :
      (file : List Bytes) (c : Configuration) → SameIntervals c (load_lines overflow file c)
  unfolding load_lines
  load_lines-SameIntervals [] c = unchanged c
  load_lines-SameIntervals (line ∷ rest) c =
      let first = load_line-SameIntervals line c in
      let others = load_lines-SameIntervals rest (load_line overflow line c) in
      record {
        active = others.active ∙ first.active;
        screen_off = others.screen_off ∙ first.screen_off;
        deep_idle = others.deep_idle ∙ first.deep_idle;
      }
