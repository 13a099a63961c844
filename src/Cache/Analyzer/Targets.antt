-- ===== src/Cache/Analyzer/Targets.antt =====
-- What AnalyzeCaches chooses: large directories, the most urgent first.
use fresh_core_native.Prelude.{
  All-Permᴰ, ℕ, ◌*◌, ◌≤◌, ◌≡◌, refl, sym, ◌∙◌, ap, u64, int_to_u64, Bytes, Bool, true, false,
  Option, none, some, List, [], ◌∷◌, All, leb, leb→le, if◌then◌else◌,
}
use fresh_core_native.CacheData.{CacheDirInfo, PackageState, MaintenanceTarget}
use fresh_core_native.Config.{Configuration}
use fresh_core_native.Os.{Env}
use fresh_core_native.Sys.{Sys}
use fresh_core_native.Sys.Monad.{Runs}
use fresh_core_native.Sys.Monad
use fresh_core_native.Sys.Frame.{Frame, Frame-IsPreorder}
use fresh_core_native.Sys.Fuel.{Prog, return, lift, continue, ◌>>=◌, OnSome, Prog-lift}
use fresh_core_native.StateStorage.Calls.{
  get_package_state-Frame, update_package_state-Frame, get_current_time_ms-Frame,
  save_state_atomic-Frame,
}
use fresh_core_native.Cache.Policy.{threshold_bytes, should_clean_cache}
use fresh_core_native.Cache.Scanner.Calls.{calculate_cache_size-Frame}
use fresh_core_native.Cache.Analyzer.{is_before, push_if, measure_dir, analyze_dirs, analyze_caches}
use fresh_core_native.Cache.Analyzer.Order.{Falls, Sorts, is_before-IsStrictWeak, Ordered-Falls}

-- Begun where the threshold is `limit`, `m` keeps it, and its result, if any, satisfies `Q`.
record Under {A : Type 0} (limit : ℕ) (Q : A → Type 0) (m : Prog A) : Type 0 where
  at : (s : Sys) → threshold_bytes s ≡ limit → OnSome Q (m s).0 × (threshold_bytes (m s).1 ≡ limit)

module _ {limit : ℕ} {A : Type 0} {Q : A → Type 0} where
  Under-return : (a : A) → Q a → Under limit Q (return a)
  unfolding return
  Under-return a q = record { at = λ s e. (q, e) }

  Under-if :
      (b : Bool) (m n : Prog A)
      → Under limit Q m
      → Under limit Q n
      → Under limit Q (if b then m else n)
  Under-if true m n hm hn = hm
  Under-if false m n hm hn = hn

  continue-Under :
      {B : Type 0} {T : B → Type 0} (r : Option B) (f : B → Prog A)
      → OnSome T r
      → ((b : B) → T b → Under limit Q (f b))
      → Under limit Q (continue r f)
  continue-Under none f hr hf = record { at = λ s e. (tt, e) }
  continue-Under (some b) f hr hf = record { at = λ s e. (hf b hr).at s e }

  Under-bind :
      {B : Type 0} {T : B → Type 0} (m : Prog B) (f : B → Prog A)
      → Under limit T m
      → ((b : B) → T b → Under limit Q (f b))
      → Under limit Q (m >>= f)
  unfolding ◌>>=◌
  Under-bind {T} m f hm hf = record {
    at = λ s e. let h = hm.at s e in (continue-Under {T = T} (m s).0 f h.0 hf).at (m s).1 h.1;
  }

OnSome-any : {A : Type 0} (r : Option A) → OnSome (λ _. Unit {0}) r
OnSome-any none = tt
OnSome-any (some a) = tt

abbrev threshold_of : Configuration → ℕ
threshold_of c = u64 (int_to_u64 c.cache_threshold_mb * 1048576)

abbrev Nothing : Bytes → Type 0
Nothing path = Unit

Under-Frame :
    {limit : ℕ} {A : Type 0} {m : Prog A} → Runs (Frame Nothing) m → Under limit (λ _. Unit {0}) m
Under-Frame {m} h = record {
  at = λ s e. (OnSome-any (m s).0, ap threshold_of (h.at s).steady.config ∙ e);
}

abbrev pub IsLarge : ℕ → MaintenanceTarget → Type 0
IsLarge limit target = limit ≤ target.cache_dir.size_bytes

abbrev pub AreChosen : ℕ → List MaintenanceTarget → Type 0
AreChosen limit targets = All (IsLarge limit) targets × Falls targets

-- A directory with the verdict on it.
abbrev IsJudged : ℕ → Bool × MaintenanceTarget → Type 0
IsJudged limit (clean, target) = clean ≡ true → IsLarge limit target

push_if-Large :
    (limit : ℕ) (clean : Bool) (target : MaintenanceTarget) (targets : List MaintenanceTarget)
    → IsJudged limit (clean, target)
    → All (IsLarge limit) targets
    → All (IsLarge limit) (push_if clean target targets)
push_if-Large limit true target targets h hs = (h refl, hs)
push_if-Large limit false target targets h hs = hs

module _ ⦃env : Env⦄ where
  should_clean_cache-Under :
      (limit size : ℕ)
      → Under limit (λ clean. clean ≡ leb limit size) (lift (should_clean_cache size))
  unfolding lift should_clean_cache Monad.gets
  should_clean_cache-Under limit size = record { at = λ s e. (ap (λ l. leb l size) e, e) }

  measure_dir-Under :
      (limit fuel now : ℕ) (dir : CacheDirInfo) (state : PackageState)
      → Under limit (IsJudged limit) (measure_dir fuel now dir state)
  unfolding measure_dir
  measure_dir-Under limit fuel now dir state =
      Under-bind _ _ (Under-Frame (calculate_cache_size-Frame fuel dir)) λ measured _.
        Under-bind _ _ (Under-Frame (Prog-lift _ (update_package_state-Frame _ _))) λ _ _.
          Under-bind _ _ (should_clean_cache-Under limit measured.size_bytes)
            λ clean same. Under-return _ (λ e. leb→le limit measured.size_bytes (sym same ∙ e))

  analyze_dirs-Under :
      (limit fuel now : ℕ) (dirs : List CacheDirInfo)
      → Under limit (All (IsLarge limit)) (analyze_dirs fuel now dirs)
  unfolding analyze_dirs
  analyze_dirs-Under limit fuel now [] = Under-return _ tt
  analyze_dirs-Under limit fuel now (dir ∷ dirs) =
      Under-bind _ _ (Under-Frame (Prog-lift _ (get_package_state-Frame _))) λ state _.
        Under-if _ _ _ (analyze_dirs-Under limit fuel now dirs) (
          Under-bind _ _ (measure_dir-Under limit fuel now dir state) λ found f.
            Under-bind _ _ (analyze_dirs-Under limit fuel now dirs)
              λ targets ts. Under-return _ (push_if-Large limit found.0 found.1 targets f ts))

  analyze_caches-Under :
      Sorts env.sort
      → (limit fuel : ℕ) (dirs : List CacheDirInfo)
      → Under limit (AreChosen limit) (analyze_caches fuel dirs)
  unfolding analyze_caches
  analyze_caches-Under sorts limit fuel dirs =
      Under-bind _ _ (Under-Frame (Prog-lift _ get_current_time_ms-Frame)) λ now _.
        Under-bind _ _ (analyze_dirs-Under limit fuel now dirs) λ targets ts.
          Under-bind _ _ (Under-Frame (Prog-lift _ save_state_atomic-Frame)) λ _ _. Under-return _ (
            All-Permᴰ (IsLarge limit) (sorts.permutes is_before is_before-IsStrictWeak targets) ts,
            Ordered-Falls _ (sorts.ordered is_before is_before-IsStrictWeak targets),
          )

  -- Where std::sort sorts by any strict weak order, every target of the analysis was measured with at least the configured
  -- threshold of bytes, and the targets come with the highest priority first.
  pub analyze_caches_chooses :
      Sorts env.sort
      → (fuel : ℕ) (dirs : List CacheDirInfo) (s : Sys)
      → OnSome (AreChosen (threshold_bytes s)) (analyze_caches fuel dirs s).0
  analyze_caches_chooses sorts fuel dirs s =
      ((analyze_caches-Under sorts (threshold_bytes s) fuel dirs).at s refl).0
