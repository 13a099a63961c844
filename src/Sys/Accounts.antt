-- ===== src/Sys/Accounts.antt =====
-- The files that EndBatch counts, against the calls of rmdir and unlink: `pending` is the number of
-- files that are removed and not yet counted.

use fresh_core_native.Prelude.{
  ℕ, ◌+◌, ◌≤◌, ◌≡◌, ap, Bytes, Bool, true, false, Option, none, some, [], ◌∷◌, ◌++◌, arith,
  if◌then◌else◌,
}
use fresh_core_native.Os.{Call, History, rmdir, unlink}
use fresh_core_native.Sys.{Sys}
use fresh_core_native.Sys.Monad.{St, Runs}
use fresh_core_native.Sys.Fuel.{Prog, return, out_of_fuel, lift, continue, ◌>>=◌}
use fresh_core_native.Sys.Still.{Anywhere, Still}

abbrev pub removal : Call → ℕ
removal (rmdir path) = 1
removal (unlink path) = 1
removal _ = 0

-- The calls that remove a file or a directory.
unfoldable pub removals : History → ℕ
removals [] = 0
removals (c ∷ calls) = removal c + removals calls

-- From `s` to `t`, where `m` files were pending and `n` are, no more files are counted than removed.
pub record Counts (m n : ℕ) (s t : Sys) : Type 0 where
  pub bound :
      t.totals.files_processed + n + removals s.calls
      ≤ s.totals.files_processed + m + removals t.calls

abbrev pub owed : {A : Type 0} → (A → ℕ) → Option A → ℕ
owed n none = 0
owed n (some a) = n a

-- The files pending after `p` depend on its result.
pub record Accounts {A : Type 0} (m : ℕ) (n : A → ℕ) (p : Prog A) : Type 0 where
  pub at : (s : Sys) → Counts m (owed n (p s).0) s (p s).1

removals-append : (new calls : History) → removals (new ++ calls) ≡ removals new + removals calls
unfolding removals
removals-append [] calls = omega arith
removals-append (c ∷ new) calls = omega (arith, removals-append new calls)

pub Counts-Still : {P : Bytes → Type 0} (m : ℕ) {s t : Sys} → Still P s t → Counts m m s t
Counts-Still m {s} h =
    let e = h.frame.steady.emits in
    record { bound = omega (arith, h.files, ap removals e.calls, removals-append e.new s.calls) }

pub Counts-trans : (m n k : ℕ) {s t u : Sys} → Counts m n s t → Counts n k t u → Counts m k s u
Counts-trans m n k a b = record { bound = omega (arith, a.bound, b.bound) }

pub Counts-drop : (m n k : ℕ) {s t : Sys} → k ≤ n → Counts m n s t → Counts m k s t
Counts-drop m n k h a = record { bound = omega (arith, h, a.bound) }

module _ {A : Type 0} where
  pub Accounts-return : (n : A → ℕ) (m : ℕ) (a : A) → n a ≤ m → Accounts m n (return a)
  unfolding return
  Accounts-return n m a h = record { at = λ s. record { bound = omega (arith, h) } }

  pub Accounts-out_of_fuel : {n : A → ℕ} {m : ℕ} → Accounts m n out_of_fuel
  unfolding out_of_fuel
  Accounts-out_of_fuel = record { at = λ s. record { bound = omega arith } }

  pub Accounts-lift :
      (n : A → ℕ) (m : ℕ) (p : St A)
      → ((s : Sys) → Counts m (n (p s).0) s (p s).1)
      → Accounts m n (lift p)
  unfolding lift
  Accounts-lift n m p h = record { at = h }

  pub Accounts-Still :
      {P : Bytes → Type 0} (m : ℕ) (p : St A) → Runs (Still P) p → Accounts m (λ _. m) (lift p)
  Accounts-Still m p h = Accounts-lift _ m p (λ s. Counts-Still m (h.at s))

  pub Accounts-if :
      (n : A → ℕ) (m : ℕ) (b : Bool) (p q : Prog A)
      → Accounts m n p
      → Accounts m n q
      → Accounts m n (if b then p else q)
  Accounts-if n m true p q hp hq = hp
  Accounts-if n m false p q hp hq = hq

module _ {A B : Type 0} (m : ℕ) (n : A → ℕ) (k : B → ℕ) where
  continue-Accounts :
      (r : Option A) (f : A → Prog B) (s t : Sys)
      → Counts m (owed n r) s t
      → ((a : A) → Accounts (n a) k (f a))
      → Counts m (owed k (continue r f t).0) s (continue r f t).1
  continue-Accounts none f s t h hf = h
  continue-Accounts (some a) f s t h hf = Counts-trans m (n a) _ h ((hf a).at t)

  pub Accounts-bind :
      (p : Prog A) (f : A → Prog B)
      → Accounts m n p
      → ((a : A) → Accounts (n a) k (f a))
      → Accounts m k (p >>= f)
  unfolding ◌>>=◌
  Accounts-bind p f hp hf = record { at = λ s. continue-Accounts (p s).0 f s (p s).1 (hp.at s) hf }

-- What counts no file may come before.
pub Accounts-after :
    {A B : Type 0} {m : ℕ} {k : B → ℕ} {p : St A} {f : A → Prog B}
    → Runs (Still Anywhere) p
    → ((a : A) → Accounts m k (f a))
    → Accounts m k (lift p >>= f)
Accounts-after {m} {k} {p} {f} h hf =
    Accounts-bind m (λ _. m) k (lift p) f (Accounts-Still m p h) hf
