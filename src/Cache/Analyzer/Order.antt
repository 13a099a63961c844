-- ===== src/Cache/Analyzer/Order.antt =====
-- std::sort, and the order that `AnalyzeCaches` gives it.
use mathlib.Core.List.{Permᴰ}
use fresh_core_native.Prelude.{
  ℕ, ◌≤◌, ◌≡◌, ◌⊎◌, inl, inr, Bool, Bool-cases, true, false, List, [], ◌∷◌, ltb, arith,
}
use fresh_core_native.CacheData.{MaintenanceTarget}
use fresh_core_native.Cache.Analyzer.{is_before}

abbrev pub Less : Type 0
Less = MaintenanceTarget → MaintenanceTarget → Bool

-- What std::sort asks of a comparison.
pub record IsStrictWeak (less : Less) : Type 0 where
  pub irreflexive : (a : MaintenanceTarget) → less a a ≡ false
  pub asymmetric : (a b : MaintenanceTarget) → less a b ≡ true → less b a ≡ false
  pub splits : (a b c : MaintenanceTarget) → less a c ≡ true → (less a b ≡ true) ⊎ (less b c ≡ true)

-- No element of the list is less than the one before it.
abbrev pub OrderedFrom : Less → MaintenanceTarget → List MaintenanceTarget → Type 0
OrderedFrom less p [] = Unit
OrderedFrom less p (t ∷ ts) = (less t p ≡ false) × OrderedFrom less t ts

abbrev pub Ordered : Less → List MaintenanceTarget → Type 0
Ordered less [] = Unit
Ordered less (t ∷ ts) = OrderedFrom less t ts

-- What std::sort promises, with a comparison of that kind; the order of equal elements is open.
pub record Sorts (sort : Less → List MaintenanceTarget → List MaintenanceTarget) : Type 0 where
  pub permutes :
      (less : Less) → IsStrictWeak less → (ts : List MaintenanceTarget) → Permᴰ ts (sort less ts)
  pub ordered :
      (less : Less)
      → IsStrictWeak less
      → (ts : List MaintenanceTarget) → Ordered less (sort less ts)

is_before_splits :
    (a b c : MaintenanceTarget)
    → is_before a c ≡ true
    → (is_before a b ≡ true) ⊎ (is_before b c ≡ true)
unfolding is_before
is_before_splits a b c h = elim (Bool-cases (ltb b.priority a.priority)) [
  | inl e ↦ inl e
  | inr e ↦ inr (ground (arith, h, e))
]

pub is_before-IsStrictWeak : IsStrictWeak is_before
unfolding is_before
is_before-IsStrictWeak = record {
  irreflexive = λ a. ground arith;
  asymmetric = λ a b h. ground (arith, h);
  splits = is_before_splits;
}

-- Priorities do not rise along the list.
abbrev pub FallsFrom : ℕ → List MaintenanceTarget → Type 0
FallsFrom p [] = Unit
FallsFrom p (t ∷ ts) = (t.priority ≤ p) × FallsFrom t.priority ts

abbrev pub Falls : List MaintenanceTarget → Type 0
Falls [] = Unit
Falls (t ∷ ts) = FallsFrom t.priority ts

not_before : (a b : MaintenanceTarget) → is_before a b ≡ false → a.priority ≤ b.priority
unfolding is_before
not_before a b h = ground (arith, h)

OrderedFrom-FallsFrom :
    (p : MaintenanceTarget) (ts : List MaintenanceTarget)
    → OrderedFrom is_before p ts
    → FallsFrom p.priority ts
OrderedFrom-FallsFrom p [] h = tt
OrderedFrom-FallsFrom p (t ∷ ts) h = (not_before t p h.0, OrderedFrom-FallsFrom t ts h.1)

-- A list in the order of `AnalyzeCaches` has the highest priorities first.
pub Ordered-Falls : (ts : List MaintenanceTarget) → Ordered is_before ts → Falls ts
Ordered-Falls [] h = tt
Ordered-Falls (t ∷ ts) h = OrderedFrom-FallsFrom t ts h
