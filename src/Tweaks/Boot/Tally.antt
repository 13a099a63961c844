-- ===== src/Tweaks/Boot/Tally.antt =====
-- The counters of the boot tweaks against the writes that were made.
use fresh_core_native.Prelude.{
  ℕ, ◌+◌, ◌≡◌, refl, ap, ◌∙◌, Bytes, join, Bool, true, false, List, [], ◌∷◌, ◌++◌, All, arith,
  if◌then◌else◌,
}
use fresh_core_native.Os.{Env, Call, History, info, number}
use fresh_core_native.Os
use fresh_core_native.Sys.{Sys}
use fresh_core_native.Sys.Monad.{St, pure, Runs, Emits, Emits-IsPreorder, ◌>>=◌, emits}
use fresh_core_native.Sys.Monad
use fresh_core_native.Logging.{log}
use fresh_core_native.Logging.Emissions.{IsHarmless, log_harmless}
use fresh_core_native.Tweaks.Boot.{
  Counts, count, tcp_settings, block_dir, dexopt_command, write_to_file, write_settings,
  report_locked, boost_file, boost_entry, boost_entries, boost_blocks, apply_boot_tweaks,
}

abbrev NoWrite : Call → Type 0
NoWrite (Os.write_file path val) = ⊥
NoWrite _ = Unit

IsHarmless-NoWrite : (c : Call) → IsHarmless c → NoWrite c
IsHarmless-NoWrite (Os.write_file path val) h = absurd h
IsHarmless-NoWrite _ h = tt

abbrev Quiet : Sys → Sys → Type 0
Quiet = Emits NoWrite

module _ ⦃env : Env⦄ where
  -- Of the writes made, newest first, how many the device let through and how many it refused.
  abbrev pub succeeds : Call → History → ℕ
  succeeds (Os.write_file path val) h = if env.writable h path then 1 else 0
  succeeds _ h = 0

  abbrev pub fails : Call → History → ℕ
  fails (Os.write_file path val) h = if env.writable h path then 0 else 1
  fails _ h = 0

  succeeds_none : (c : Call) (h : History) → NoWrite c → succeeds c h ≡ 0
  succeeds_none (Os.write_file path val) h n = absurd n
  succeeds_none _ h n = refl

  fails_none : (c : Call) (h : History) → NoWrite c → fails c h ≡ 0
  fails_none (Os.write_file path val) h n = absurd n
  fails_none _ h n = refl

  unfoldable pub succeeded : History → ℕ
  succeeded [] = 0
  succeeded (c ∷ h) = succeeds c h + succeeded h

  unfoldable pub failed : History → ℕ
  failed [] = 0
  failed (c ∷ h) = fails c h + failed h

  succeeded-append_none : (new h : History) → All NoWrite new → succeeded (new ++ h) ≡ succeeded h
  unfolding succeeded
  succeeded-append_none [] h n = refl
  succeeded-append_none (c ∷ new) h n =
      omega (arith, succeeds_none c (new ++ h) n.0, succeeded-append_none new h n.1)

  failed-append_none : (new h : History) → All NoWrite new → failed (new ++ h) ≡ failed h
  unfolding failed
  failed-append_none [] h n = refl
  failed-append_none (c ∷ new) h n =
      omega (arith, fails_none c (new ++ h) n.0, failed-append_none new h n.1)

  Emits-succeeded : {s t : Sys} → Emits NoWrite s t → succeeded t.calls ≡ succeeded s.calls
  Emits-succeeded {s} e = ap succeeded e.calls ∙ succeeded-append_none e.new s.calls e.each

  Emits-failed : {s t : Sys} → Emits NoWrite s t → failed t.calls ≡ failed s.calls
  Emits-failed {s} e = ap failed e.calls ∙ failed-append_none e.new s.calls e.each

  -- Counted from `c` on, each write between `s` and `t` is counted once, in the counter of its outcome.
  record Counted (c d : Counts) (s t : Sys) : Type 0 where
    success : d.success + succeeded s.calls ≡ c.success + succeeded t.calls
    fail : d.fail + failed s.calls ≡ c.fail + failed t.calls

  record Tallies (c : Counts) (m : St Counts) : Type 0 where
    at : (s : Sys) → Counted c (m s).0 s (m s).1

  Tallies-pure : (c : Counts) → Tallies c (pure c)
  unfolding pure
  Tallies-pure c = record { at = λ s. record { success = refl; fail = refl } }

  Counted-Quiet :
      {c d : Counts} (s t u : Sys) → Emits NoWrite s t → Counted c d t u → Counted c d s u
  Counted-Quiet s t u e h = record {
    success = omega (arith, h.success, Emits-succeeded e);
    fail = omega (arith, h.fail, Emits-failed e);
  }

  Tallies-Quiet :
      {A : Type 0} {c : Counts} (m : St A) (f : A → St Counts)
      → Runs Quiet m
      → ((a : A) → Tallies c (f a))
      → Tallies c (m >>= f)
  unfolding ◌>>=◌
  Tallies-Quiet m f hm hf = record {
    at = λ s. Counted-Quiet s (m s).1 _ (hm.at s) ((hf (m s).0).at (m s).1);
  }

  Counted-trans :
      {c d e : Counts} (s t u : Sys) → Counted c d s t → Counted d e t u → Counted c e s u
  Counted-trans s t u a b = record {
    success = omega (arith, a.success, b.success);
    fail = omega (arith, a.fail, b.fail);
  }

  Tallies-bind :
      {c : Counts} (m : St Counts) (f : Counts → St Counts)
      → Tallies c m
      → ((c' : Counts) → Tallies c' (f c'))
      → Tallies c (m >>= f)
  unfolding ◌>>=◌
  Tallies-bind m f hm hf = record {
    at = λ s. Counted-trans s (m s).1 _ (hm.at s) ((hf (m s).0).at (m s).1);
  }

  Tallies-if :
      {c : Counts} (b : Bool) (m n : St Counts)
      → Tallies c m
      → Tallies c n
      → Tallies c (if b then m else n)
  Tallies-if true m n hm hn = hm
  Tallies-if false m n hm hn = hn

  write-Counted :
      (c : Counts) (path val : Bytes) (written : Bool) (s : Sys)
      → env.writable s.calls path ≡ written
      → Counted c (count written c) s (record s { calls = Call.write_file path val ∷ s.calls })
  unfolding succeeded failed
  write-Counted c path val true s e = record {
    success = ground (arith, e);
    fail = ground (arith, e);
  }
  write-Counted c path val false s e = record {
    success = ground (arith, e);
    fail = ground (arith, e);
  }

  Tallies-write :
      {c : Counts} (path val : Bytes) (f : Bool → St Counts)
      → ((written : Bool) → Tallies (count written c) (f written))
      → Tallies c (write_to_file path val >>= f)
  unfolding ◌>>=◌ write_to_file Monad.perform
  Tallies-write {c} path val f hf = record {
    at = λ s.
        let written = env.writable s.calls path in
        let t : Sys = record s { calls = Call.write_file path val ∷ s.calls } in
        Counted-trans s t _ (write-Counted c path val written s refl) ((hf written).at t);
  }

  write_settings-Tallies :
      (settings : List (Bytes × Bytes)) (c : Counts) → Tallies c (write_settings settings c)
  unfolding write_settings
  write_settings-Tallies [] c = Tallies-pure c
  write_settings-Tallies ((path, val) ∷ settings) c =
      Tallies-write path val _ λ written. write_settings-Tallies settings (count written c)

  report_locked-Quiet : (path : Bytes) (written : Bool) → Runs Quiet (report_locked path written)
  unfolding report_locked
  report_locked-Quiet path true = search emits
  report_locked-Quiet path false = log_harmless IsHarmless-NoWrite _ _ _

  boost_file-Tallies : (path : Bytes) (c : Counts) → Tallies c (boost_file path c)
  unfolding boost_file
  boost_file-Tallies path c = Tallies-Quiet _ _ (search emits) λ there.
      Tallies-if _ _ _
        (Tallies-write path _ _ λ written.
          Tallies-Quiet _ _ (report_locked-Quiet path written) λ _. Tallies-pure (count written c))
        (Tallies-pure c)

  boost_entry-Tallies : (entry : Bytes) (c : Counts) → Tallies c (boost_entry entry c)
  unfolding boost_entry
  boost_entry-Tallies entry c =
      Tallies-Quiet _ _ (search emits)
        λ dir. Tallies-if _ _ _ (boost_file-Tallies _ c) (Tallies-pure c)

  boost_entries-Tallies : (names : List Bytes) (c : Counts) → Tallies c (boost_entries names c)
  unfolding boost_entries
  boost_entries-Tallies [] c = Tallies-pure c
  boost_entries-Tallies (name ∷ names) c =
      Tallies-bind _ _ (boost_entry-Tallies (join block_dir name) c) (boost_entries-Tallies names)

  boost_blocks-Tallies : (c : Counts) → Tallies c (boost_blocks c)
  unfolding boost_blocks
  boost_blocks-Tallies c = Tallies-Quiet _ _ (search emits) λ there.
      Tallies-if _ _ _ (Tallies-Quiet _ _ (search emits) λ names. boost_entries-Tallies names c)
        (Tallies-pure c)

  -- The log line at the end of the tweaks, with its counters, behind the state `before`.
  pub record Reports (s t : Sys) : Type 0 where
    pub before : Sys
    pub success : ℕ
    pub fail : ℕ
    pub success_count : success + succeeded s.calls ≡ succeeded t.calls
    pub fail_count : fail + failed s.calls ≡ failed t.calls
    pub reported :
        t
        ≡ (log info "Boot-Time Tweaks Finished: %d Applied Successfully, %d Failed (Locked/Missing)"
            (number success ∷ number fail ∷ [])
            before).1

  -- From every state and on every device, the boot tweaks end with the log line of the two counters,
  -- and these are the numbers of the files whose write the device let through and refused.
  pub apply_boot_tweaks_counts : (s : Sys) → Reports s (apply_boot_tweaks s).1
  unfolding apply_boot_tweaks ◌>>=◌ Monad.perform
  apply_boot_tweaks_counts s =
      let s₁ = (log info "Applying Boot-Time System Tweaks..." [] s).1 in
      let w = write_settings tcp_settings (record { success = 0; fail = 0 }) s₁ in
      let b = boost_blocks w.0 w.1 in
      let v : Sys = record b.1 { calls = Call.system dexopt_command ∷ b.1.calls } in
      let l =
        log_harmless IsHarmless-NoWrite info
          "Boot-Time Tweaks Finished: %d Applied Successfully, %d Failed (Locked/Missing)"
          (number b.0.success ∷ number b.0.fail ∷ []) in
      let h = Counted-Quiet s s₁ b.1 ((log_harmless IsHarmless-NoWrite _ _ _).at s) (
        Counted-trans s₁ w.1 b.1 ((write_settings-Tallies tcp_settings _).at s₁)
          ((boost_blocks-Tallies w.0).at w.1)) in
      let x : Emits NoWrite b.1 v = record {
        new = Call.system dexopt_command ∷ [];
        calls = refl;
        each = (tt, tt);
      } in
      record {
        before = v;
        success = b.0.success;
        fail = b.0.fail;
        success_count = omega (arith, h.success, Emits-succeeded (l.at v), Emits-succeeded x);
        fail_count = omega (arith, h.fail, Emits-failed (l.at v), Emits-failed x);
        reported = refl;
      }
