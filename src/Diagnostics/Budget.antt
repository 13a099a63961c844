-- ===== src/Diagnostics/Budget.antt =====
-- The limit on what is freed, as EndBatch enforces it.
use fresh_core_native.Prelude.{
  ℕ, ◌+◌, ◌*◌, ◌%◌, ◌≤◌, ◌<◌, ◌≡◌, refl, sym, ◌∙◌, ap, u64, sub64, int_to_u64, Bool, true, false,
  ltb, List, [], ◌∷◌, arith, if◌then◌else◌,
}
use fresh_core_native.Os.{Env}
use fresh_core_native.Config.{Configuration}
use fresh_core_native.Sys.{Sys, Totals}
use fresh_core_native.Sys.Still.{Anywhere}
use fresh_core_native.Diagnostics.Calls.{end_batch-Frame}
use fresh_core_native.Sys.Monad.{St, Runs, pure, ◌>>=◌}
use fresh_core_native.Sys.Monad
use fresh_core_native.Sys.Logged.{Logged, Logged-IsPreorder, logged}
use fresh_core_native.Logging.Calls.{log-Logged}
use fresh_core_native.Diagnostics.{
  add_totals, max_cleanup_bytes, get_monotonic_time_ms, get_current_usage, check_self_limits,
  judge_limit, warn_if_long, end_batch,
}

limit_passed : (a b c d : ℕ) → ltb a b ≡ false → a ≡ c → b ≡ d → d ≤ c
limit_passed a b c d h e f = ground (arith, h, e, f)

-- The sums of the batches.
abbrev pub all_files : List (ℕ × ℕ) → ℕ
all_files [] = 0
all_files ((files, bytes) ∷ batches) = files + all_files batches

abbrev pub all_bytes : List (ℕ × ℕ) → ℕ
all_bytes [] = 0
all_bytes ((files, bytes) ∷ batches) = bytes + all_bytes batches

abbrev limit_of : Configuration → ℕ
limit_of c = u64 (int_to_u64 c.max_cleanup_mb_per_run * 1048576)

limit_small : (s : Sys) → max_cleanup_bytes s < 18446744073709551616
limit_small s = omega arith

-- From `s` to `t` the totals have grown by so many files and bytes, and the limit is kept.
pub record Adds (files bytes : ℕ) (s t : Sys) : Type 0 where
  pub counted : t.totals.files_processed ≡ s.totals.files_processed + files
  pub freed : t.totals.bytes_freed ≡ (s.totals.bytes_freed + bytes) % 18446744073709551616
  pub within : t.totals.bytes_freed ≤ max_cleanup_bytes s

module _ ⦃env : Env⦄ where
  check_self_limits-Logged : Runs Logged check_self_limits
  unfolding check_self_limits get_current_usage
  check_self_limits-Logged = search (logged, log-Logged) depth 30

  warn_if_long-Logged : (duration : ℕ) → Runs Logged (warn_if_long duration)
  unfolding warn_if_long
  warn_if_long-Logged duration = search (logged, log-Logged) depth 20

  judge_limit-Logged : (b : Bool) → Runs Logged (judge_limit b)
  unfolding judge_limit
  judge_limit-Logged true = search (logged, log-Logged) depth 20
  judge_limit-Logged false = check_self_limits-Logged

  judge_limit_passed : (b : Bool) (s : Sys) → (judge_limit b s).0 ≡ true → b ≡ false
  unfolding judge_limit ◌>>=◌ pure
  judge_limit_passed true s e = sym e
  judge_limit_passed false s e = refl

  end_batch_within_limit :
      (files bytes : ℕ) (s : Sys)
      → (end_batch files bytes s).0 ≡ true
      → ((end_batch files bytes s).1.totals ≡ (add_totals files bytes s).totals)
        × (u64 (s.totals.bytes_freed + bytes) ≤ max_cleanup_bytes s)
  unfolding end_batch ◌>>=◌ Monad.perform Monad.gets Monad.modify get_monotonic_time_ms
  end_batch_within_limit files bytes s e =
      let m = get_monotonic_time_ms s in
      let t = add_totals files bytes m.1 in
      let u = warn_if_long (sub64 m.0 m.1.totals.batch_start_time_ms) t in
      let w = ((warn_if_long-Logged (sub64 m.0 m.1.totals.batch_start_time_ms)).at t).rest in
      let b = ltb (max_cleanup_bytes u.1) u.1.totals.bytes_freed in
      let j = ((judge_limit-Logged b).at u.1).rest in
      let passed : ltb (max_cleanup_bytes u.1) u.1.totals.bytes_freed ≡ false =
        judge_limit_passed b u.1 e in
      let limit : max_cleanup_bytes u.1 ≡ max_cleanup_bytes s = ap max_cleanup_bytes w in
      let freed : u.1.totals.bytes_freed ≡ u64 (s.totals.bytes_freed + bytes) =
        ap (λ (x : Sys). x.totals.bytes_freed) w in
      (
        ap (λ (x : Sys). x.totals) j ∙ ap (λ (x : Sys). x.totals) w,
        limit_passed _ _ _ _ passed limit freed,
      )

  end_batch_keeps : (files bytes : ℕ) (s : Sys) → (end_batch files bytes s).1.config ≡ s.config
  end_batch_keeps files bytes s = ((end_batch-Frame {P = Anywhere} files bytes).at s).steady.config

  -- The batches of a run, each with its files and its bytes, for as long as EndBatch lets it go on.
  unfoldable pub end_batches : List (ℕ × ℕ) → St Bool
  end_batches [] = pure true
  end_batches ((files, bytes) ∷ batches) = do
    go_on ← end_batch files bytes
    if go_on then end_batches batches else pure false

  module _ (files bytes : ℕ) (batches : List (ℕ × ℕ))
      (rest : (s : Sys)
        → (end_batches batches s).0 ≡ true
        → s.totals.bytes_freed ≤ max_cleanup_bytes s
        → Adds (all_files batches) (all_bytes batches) s (end_batches batches s).1) where
    go_on-Adds :
        (go_on : Bool) (s t : Sys)
        → t.config ≡ s.config
        → (go_on ≡ true
            → (t.totals ≡ (add_totals files bytes s).totals)
              × (u64 (s.totals.bytes_freed + bytes) ≤ max_cleanup_bytes s))
        → ((if go_on then end_batches batches else pure false) t).0 ≡ true
        → Adds
            (files + all_files batches)
            (bytes + all_bytes batches)
            s
            ((if go_on then end_batches batches else pure false) t).1
    unfolding pure
    go_on-Adds false s t same h e = ground (arith, e)
    go_on-Adds true s t same h e =
        let k = h refl in
        let limit : max_cleanup_bytes t ≡ max_cleanup_bytes s = ap limit_of same in
        let freed : t.totals.bytes_freed ≡ u64 (s.totals.bytes_freed + bytes) =
          ap (λ (x : Totals). x.bytes_freed) k.0 in
        let counted : t.totals.files_processed ≡ s.totals.files_processed + files =
          ap (λ (x : Totals). x.files_processed) k.0 in
        let r = rest t e (omega (arith, k.1, limit, freed)) in
        record {
          counted = omega (arith, r.counted, counted);
          freed = omega (arith, r.freed, freed);
          within = omega (arith, r.within, limit);
        }

  -- Where EndBatch lets a run go on after each of its batches, the run's totals have grown by the
  -- files and, modulo 2 ^ 64, by the bytes of all of them, and the bytes freed are at most
  -- max_cleanup_mb_per_run megabytes, where they were before the first batch.
  pub end_batches_within_limit :
      (batches : List (ℕ × ℕ)) (s : Sys)
      → (end_batches batches s).0 ≡ true
      → s.totals.bytes_freed ≤ max_cleanup_bytes s
      → Adds (all_files batches) (all_bytes batches) s (end_batches batches s).1
  unfolding end_batches ◌>>=◌ pure
  end_batches_within_limit [] s e few = record {
    counted = omega arith;
    freed = omega (arith, few, limit_small s);
    within = few;
  }
  end_batches_within_limit ((files, bytes) ∷ batches) s e few =
      go_on-Adds files bytes batches (end_batches_within_limit batches) (end_batch files bytes s).0
        s (end_batch files bytes s).1 (end_batch_keeps files bytes s)
        (end_batch_within_limit files bytes s) e
