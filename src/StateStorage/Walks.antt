-- ===== src/StateStorage/Walks.antt =====
-- The table in another order, as an unordered_map may be walked.
use mathlib.Core.List.{Permᴰ}
use fresh_core_native.Prelude.{
  All-Permᴰ, ℕ, ◌≡◌, refl, sym, ◌∙◌, ap, subst, [], ◌∷◌, length, All, suc, arith,
}
use fresh_core_native.CacheData.{PackageState, States, find}
use fresh_core_native.StateStorage.{values}
use fresh_core_native.StateStorage.Restore.{WellKeyed}
use fresh_core_native.StateStorage.Abstract.{SameFinds}

-- Each entry is visited once.
pub record Walks (walk : States → States) : Type 0 where
  pub permutes : (m : States) → Permᴰ m (walk m)

-- What stays in another order.
record SameTable (m w : States) : Type 0 where
  keyed : WellKeyed m → WellKeyed w
  finds : WellKeyed m → SameFinds m w

SameTable-cons : (e : ℕ × PackageState) (m w : States) → SameTable m w → SameTable (e ∷ m) (e ∷ w)
unfolding find
SameTable-cons (k, st) m w h = record {
  keyed = λ x. (x.0, (sym (h.finds x.1.1 k) ∙ x.1.0, h.keyed x.1.1));
  finds = λ x j. ground (arith, h.finds x.1.1 j);
}

SameTable-swap : (d e : ℕ × PackageState) (m : States) → SameTable (d ∷ e ∷ m) (e ∷ d ∷ m)
unfolding find
SameTable-swap (j, u) (k, v) m = record {
  keyed =
      λ x. (x.1.1.0, (ground (arith, x.1.0, x.1.1.1.0), (x.0, (ground (arith, x.1.0), x.1.1.1.1))));
  finds = λ x i. ground (arith, x.1.0);
}

Permᴰ-SameTable : {m w : States} → Permᴰ m w → SameTable m w
Permᴰ-SameTable Permᴰ.nil = record { keyed = λ x. x; finds = λ x k. refl }
Permᴰ-SameTable (Permᴰ.cons {a} {l₁ = m} {l₂ = w} e p) =
    subst (λ b. SameTable (a ∷ m) (b ∷ w)) e (SameTable-cons a m w (Permᴰ-SameTable p))
Permᴰ-SameTable (Permᴰ.swap {a} {b} {b'} {l} e f) =
    subst (λ a'. SameTable (a ∷ b ∷ l) (a' ∷ b' ∷ l)) f
      (subst (λ b'. SameTable (a ∷ b ∷ l) (b ∷ b' ∷ l)) e (SameTable-swap a b l))
Permᴰ-SameTable (Permᴰ.trans p q) =
    let a = Permᴰ-SameTable p in
    let b = Permᴰ-SameTable q in
    record { keyed = λ x. b.keyed (a.keyed x); finds = λ x k. a.finds x k ∙ b.finds (a.keyed x) k }

-- A statement about every state of the table.
All-values : (Q : PackageState → Type 0) (m : States) → All Q (values m) → All (λ e. Q e.1) m
All-values Q [] h = tt
All-values Q ((k, st) ∷ m) h = (h.0, All-values Q m h.1)

values-All : (Q : PackageState → Type 0) (m : States) → All (λ e. Q e.1) m → All Q (values m)
values-All Q [] h = tt
values-All Q ((k, st) ∷ m) h = (h.0, values-All Q m h.1)

length-Permᴰ : {m w : States} → Permᴰ m w → length (values m) ≡ length (values w)
length-Permᴰ Permᴰ.nil = refl
length-Permᴰ (Permᴰ.cons e p) = ap suc (length-Permᴰ p)
length-Permᴰ (Permᴰ.swap e f) = refl
length-Permᴰ (Permᴰ.trans p q) = length-Permᴰ p ∙ length-Permᴰ q

module _ (walk : States → States) (walks : Walks walk) (m : States) where
  pub walk-WellKeyed : WellKeyed m → WellKeyed (walk m)
  walk-WellKeyed = (Permᴰ-SameTable (walks.permutes m)).keyed

  pub walk-SameFinds : WellKeyed m → SameFinds m (walk m)
  walk-SameFinds = (Permᴰ-SameTable (walks.permutes m)).finds

  pub walk-All : (Q : PackageState → Type 0) → All Q (values m) → All Q (values (walk m))
  walk-All Q h =
      values-All Q (walk m) (All-Permᴰ (λ e. Q e.1) (walks.permutes m) (All-values Q m h))

  pub walk-length : length (values m) ≡ length (values (walk m))
  walk-length = length-Permᴰ (walks.permutes m)
