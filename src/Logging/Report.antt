-- ===== src/Logging/Report.antt =====
-- The calls that the logger makes, on the file that it was opened with.
use fresh_core_native.Prelude.{
  ℕ, ◌≡◌, refl, Bytes, String, Bool, true, false, not, ◌&&◌, List, [], ◌∷◌, Option, none, some,
  if◌then◌else◌,
}
use fresh_core_native.Os.{Env, Call, History, LogLevel, Arg, Stat}
use fresh_core_native.Sys.{Sys, Logger}
use fresh_core_native.Sys.Monad.{
  St, IsPreorder, Runs, Runs-bind, Runs-if, Runs-pure, Runs-modify, Emits, Emits-same,
  Emits-IsPreorder, Emits-perform, Emits-weaken, runs, pure, perform, modify, ◌>>=◌,
}
use fresh_core_native.Sys.Monad
use fresh_core_native.Logging.{
  log, write, rotate, write_line, shutdown, delete_if_old, open_log, old_path, set_open, initialize,
  is_debug,
}
use fresh_core_native.Logging.Emissions.{IsOpenCall}

-- Where the logger satisfies `I`, it does so afterwards, and all calls satisfy `Q`.
pub record Obeys (I : Logger → Type 0) (Q : Call → Type 0) (s t : Sys) : Type 0 where
  pub at : I s.logger → Emits Q s t × I t.logger

module _ {I : Logger → Type 0} {Q : Call → Type 0} where
  instance pub Obeys-IsPreorder : IsPreorder (Obeys I Q)
  Obeys-IsPreorder = record {
    same = λ s. record { at = λ i. (Emits-same refl, i) };
    trans = λ s t u a b. record {
      at = λ i. let x = a.at i in let y = b.at x.1 in (Emits-IsPreorder.trans s t u x.0 y.0, y.1);
    };
  }

  pub Obeys-perform :
      {A : Type 0} (c : Call) (answer : History → A) → Q c → Runs (Obeys I Q) (perform c answer)
  unfolding perform
  Obeys-perform c answer q = record {
    at = λ s. record { at = λ i. ((Emits-perform c answer q).at s, i) };
  }

  pub Obeys-modify :
      (f : Sys → Sys)
      → ((s : Sys) → (f s).calls ≡ s.calls)
      → ((s : Sys) → I s.logger → I (f s).logger)
      → Runs (Obeys I Q) (modify f)
  Obeys-modify f e h = Runs-modify f (λ s. record { at = λ i. (Emits-same (e s), h s i) })

pub Obeys-weaken :
    {A : Type 0} {I : Logger → Type 0} {Q R : Call → Type 0} {m : St A}
    → ((c : Call) → Q c → R c)
    → Runs (Obeys I Q) m
    → Runs (Obeys I R) m
Obeys-weaken h r = record {
  at = λ s. record { at = λ i. let x = (r.at s).at i in (Emits-weaken h x.0, x.1) };
}

pub ruleset obeys = (runs, Obeys-perform, Obeys-modify)

-- A call on the log at `path`: its rotation moves it to the path of the old log and opens it again.
pub data IsLineCall (path : Bytes) : Call → Type 0 where
  stat_log : {p : Bytes} → p ≡ path → IsLineCall path (Call.fstat p)
  close_log : {p : Bytes} → p ≡ path → IsLineCall path (Call.fclose p)
  rename_log : {p : Bytes} → p ≡ path → IsLineCall path (Call.rename p (old_path p))
  reopen_log : {p : Bytes} → p ≡ path → IsLineCall path (Call.fopen p)
  log_time : IsLineCall path Call.time
  log_line :
      (now : ℕ) (level : Bytes) (format : String) (args : List Arg)
      → IsLineCall path (Call.fprintf now level format args)
  flush_log : {p : Bytes} → p ≡ path → IsLineCall path (Call.fflush p)

abbrev pub PathIs : Bytes → Logger → Type 0
PathIs path l = l.path ≡ path

-- Where the log is open, it is the file at `path`.
abbrev pub OnLog : Bytes → Logger → Type 0
OnLog path l = l.is_open ≡ true → l.path ≡ path

module _ ⦃env : Env⦄ (path : Bytes) where
  abbrev Lines : Sys → Sys → Type 0
  Lines = Obeys (PathIs path) (IsLineCall path)

  rotate-Lines :
      (logger : Logger) (size : Option ℕ) → logger.path ≡ path → Runs Lines (rotate logger size)
  unfolding rotate
  rotate-Lines logger none e = search obeys
  rotate-Lines logger (some size) e =
      search
        (obeys, close_log e, rename_log e, reopen_log e, λ (s : Sys) (i : s.logger.path ≡ path). i)
        depth 30

  write_line-Lines :
      (logger : Logger) (level : LogLevel) (format : String) (args : List Arg)
      → logger.path ≡ path
      → Runs Lines (write_line logger level format args)
  unfolding write_line
  write_line-Lines logger level format args e =
      search (obeys, IsLineCall.log_time, IsLineCall.log_line, flush_log e) depth 30

  write_with :
      (logger : Logger) (level : LogLevel) (format : String) (args : List Arg)
      → logger.path ≡ path
      → Runs Lines (
          perform (Call.fstat logger.path) (λ h. env.fstat h logger.path) >>= λ size.
          rotate logger size >>= λ opened.
          if opened then write_line logger level format args else pure tt)
  write_with logger level format args e = Runs-bind _ _ (Obeys-perform _ _ (stat_log e)) λ size.
      Runs-bind _ _ (rotate-Lines logger size e)
        λ opened. Runs-if _ _ _ (write_line-Lines logger level format args e) (Runs-pure tt)

  log_at :
      (b o : Bool) (level : LogLevel) (format : String) (args : List Arg) (s : Sys)
      → s.logger.is_open ≡ o
      → OnLog path s.logger
      → let t = ((if b then pure tt else if o then write level format args else pure tt) s).1 in
        Emits (IsLineCall path) s t × OnLog path t.logger
  unfolding write ◌>>=◌ pure Monad.gets
  log_at true o level format args s e i = (Emits-same refl, i)
  log_at false false level format args s e i = (Emits-same refl, i)
  log_at false true level format args s e i =
      let x = ((write_with s.logger level format args (i e)).at s).at (i e) in (x.0, λ _. x.1)

  pub log-Lines :
      (level : LogLevel) (format : String) (args : List Arg)
      → Runs (Obeys (OnLog path) (IsLineCall path)) (log level format args)
  unfolding log ◌>>=◌ Monad.gets
  log-Lines level format args = record {
    at = λ s. record {
      at = λ i.
          log_at (is_debug level && not s.config.logging_debug) s.logger.is_open level format args s
            refl i;
    };
  }

  shutdown_at :
      (o : Bool) (s : Sys)
      → s.logger.is_open ≡ o
      → OnLog path s.logger
      → let t =
          ((if o
              then (perform (Call.fclose s.logger.path) (λ h. tt) >>= λ _. modify (set_open false))
              else pure tt)
            s).1 in
        Emits (IsLineCall path) s t × OnLog path t.logger
  unfolding ◌>>=◌ pure perform modify
  shutdown_at false s e i = (Emits-same refl, i)
  shutdown_at true s e i = (
    record { new = Call.fclose s.logger.path ∷ []; calls = refl; each = (close_log (i e), tt) },
    λ _. i e,
  )

  pub shutdown-Lines : Runs (Obeys (OnLog path) (IsLineCall path)) shutdown
  unfolding shutdown ◌>>=◌ Monad.gets
  shutdown-Lines = record { at = λ s. record { at = λ i. shutdown_at s.logger.is_open s refl i } }

  abbrev Opens : Sys → Sys → Type 0
  Opens = Obeys (PathIs path) (IsOpenCall path)

  delete_if_old-Opens : (st : Option Stat) → Runs Opens (delete_if_old path st)
  unfolding delete_if_old
  delete_if_old-Opens none = search obeys
  delete_if_old-Opens (some st) =
      search (obeys, IsOpenCall.time, IsOpenCall.delete, IsOpenCall.delete_old) depth 30

  opening : Runs Opens (
      perform (Call.stat path) (λ h. env.stat h path) >>= λ st. delete_if_old path st >>= λ _.
      perform (Call.fopen path) (λ h. env.fopen h path) >>= λ opened.
      modify (set_open opened) >>= λ _. pure opened)
  opening =
      search
        (
          obeys,
          delete_if_old-Opens,
          IsOpenCall.stat,
          IsOpenCall.open_file,
          λ (s : Sys) (i : s.logger.path ≡ path). i,
        )
        depth 40

  initialize_at :
      (o : Bool) (max_size : ℕ) (s : Sys)
      → s.logger.is_open ≡ o
      → OnLog path s.logger
      → let t = ((if o then pure true else open_log path max_size) s).1 in
        Emits (IsOpenCall path) s t × OnLog path t.logger
  unfolding open_log ◌>>=◌ pure modify
  initialize_at true max_size s e i = (Emits-same refl, i)
  initialize_at false max_size s e i =
      let r : Sys = record s { logger = record s.logger { path = path; max_size = max_size } } in
      let x = (opening.at r).at refl in
      (record { new = x.0.new; calls = x.0.calls; each = x.0.each }, λ _. x.1)

  pub initialize-Opens :
      (max_size : ℕ) → Runs (Obeys (OnLog path) (IsOpenCall path)) (initialize path max_size)
  unfolding initialize ◌>>=◌ Monad.gets
  initialize-Opens max_size = record {
    at = λ s. record { at = λ i. initialize_at s.logger.is_open max_size s refl i };
  }
