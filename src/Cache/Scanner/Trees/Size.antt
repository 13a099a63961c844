-- ===== src/Cache/Scanner/Trees/Size.antt =====
-- `GetDirectorySize` of cache/package_scanner.cpp adds up the sizes of a tree.
use fresh_core_native.Prelude.{
  ℕ, zero, suc, ◌+◌, ◌≤◌, ◌<◌, ◌≡◌, refl, ◌∙◌, ap, Bytes, join, u64, false, Option, none, some,
  List, [], ◌∷◌, arith,
}
use fresh_core_native.Os.{Env, History, Stat}
use fresh_core_native.Sys.{Sys}
use fresh_core_native.Sys.Monad
use fresh_core_native.Sys.Fuel.{Prog, return, lift, continue, ◌>>=◌}
use fresh_core_native.Filesystem.{get_directory_children, lstat}
use fresh_core_native.Filesystem.Listing.{
  Lists, get_directory_children-Lists, get_directory_children_closed,
}
use fresh_core_native.Cache.Scanner.{child_size, sum_children, size_of_children, get_directory_size}
use fresh_core_native.Cache.Scanner.Trees.{
  Tree, gone, file, closed, dir, Entries, end, entry, names, tree_size, entries_size, depth,
  entries_depth, IsDir, IsAt, AreIn,
}

-- From every state the result is, modulo 2 ^ 64, the number.
record Sums (m : Prog ℕ) (n : ℕ) : Type 0 where
  result : Sys → ℕ
  returned : (s : Sys) → (m s).0 ≡ some (result s)
  same : (s : Sys) → u64 (result s) ≡ u64 n

module _ {A B : Type 0} where
  -- What follows a function whose result is known.
  bind_some :
      (m : Prog A) (f : A → Prog B) (s : Sys) (a : A)
      → (m s).0 ≡ some a
      → ((m >>= f) s).0 ≡ (f a (m s).1).0
  unfolding ◌>>=◌
  bind_some m f s a e = ap (λ (r : Option A). (continue r f (m s).1).0) e

module _ ⦃env : Env⦄ where
  closed_size :
      (fuel : ℕ) (path : Bytes)
      → 1 ≤ fuel
      → ((h : History) → env.open_dir h path ≡ false)
      → (s : Sys) → (get_directory_size fuel path s).0 ≡ some 0
  unfolding get_directory_size size_of_children lift return
  closed_size zero path some_fuel h s = absurd (omega arith)
  closed_size (suc fuel) path some_fuel h s =
      bind_some (lift (get_directory_children path))
        (size_of_children (get_directory_size fuel) path) s none
        (ap some (get_directory_children_closed path s h))

  sum_end :
      (inner : Bytes → Prog ℕ) (path : Bytes) (size : ℕ) (s : Sys)
      → (sum_children inner path size [] s).0 ≡ some size
  unfolding sum_children return
  sum_end inner path size s = refl

  -- What one child of a directory adds, and what lstat answers for it.
  record Child (inner : Bytes → Prog ℕ) (path : Bytes) (n : ℕ) : Type 0 where
    found : Option Stat
    found_at : (h : History) → env.lstat h path ≡ found
    sums : Sums (child_size inner path found) n

  sum-Child :
      (inner : Bytes → Prog ℕ) (path name : Bytes) (children : List Bytes) (n m size : ℕ)
      → Child inner (join path name) n
      → ((size : ℕ) (s : Sys)
          → size < 18446744073709551616
          → (sum_children inner path size children s).0 ≡ some (u64 (size + m)))
      → (s : Sys)
      → (sum_children inner path size (name ∷ children) s).0 ≡ some (u64 (size + (n + m)))
  unfolding sum_children lift lstat Monad.perform
  sum-Child inner path name children n m size child rest s =
      let more = child.sums.result in
      let s₁ = (lift (lstat (join path name)) s).1 in
      let s₂ = (child_size inner (join path name) child.found s₁).1 in
      bind_some (lift (lstat (join path name))) _ s child.found (ap some (child.found_at s.calls))
      ∙ (bind_some (child_size inner (join path name) child.found) _ s₁ (more s₁)
            (child.sums.returned s₁)
          ∙ (rest (u64 (size + more s₁)) s₂ (omega arith)
              ∙ ap some (omega (arith, child.sums.same s₁))))

  listed_size :
      (fuel : ℕ) (path : Bytes) (ns : List Bytes) (n : ℕ)
      → Lists path ns
      → ((s : Sys) → (sum_children (get_directory_size fuel) path 0 ns s).0 ≡ some (u64 (0 + n)))
      → (s : Sys) → (get_directory_size (suc fuel) path s).0 ≡ some (u64 n)
  unfolding get_directory_size size_of_children lift
  listed_size fuel path ns n lists sum s =
      bind_some (lift (get_directory_children path)) _ s (some ns)
        (ap some (get_directory_children-Lists path ns s lists))
      ∙ (sum _ ∙ ap some (omega arith))

  dir-Child :
      (inner : Bytes → Prog ℕ) (path : Bytes) (n m : ℕ)
      → IsDir path
      → u64 m ≡ u64 n
      → ((s : Sys) → (inner path s).0 ≡ some m)
      → Child inner path n
  unfolding child_size
  dir-Child inner path n m is_dir same h = record {
    found = some _;
    found_at = is_dir.2;
    sums = record { result = λ s. m; returned = h; same = λ s. same };
  }

  mutual
    unfolding child_size return tree_size depth IsAt

    tree-Child :
        (fuel : ℕ) (path : Bytes) (t : Tree)
        → IsAt path t
        → depth t ≤ fuel
        → Child (get_directory_size fuel) path (tree_size t)
    tree-Child fuel path gone h deep = record {
      found = none;
      found_at = h;
      sums = record { result = λ s. 0; returned = λ s. refl; same = λ s. refl };
    }
    tree-Child fuel path (file n) h deep = record {
      found = some _;
      found_at = h.1;
      sums = record { result = λ s. n; returned = λ s. refl; same = λ s. refl };
    }
    tree-Child fuel path closed h deep =
        dir-Child (get_directory_size fuel) path 0 0 h.0 refl (closed_size fuel path deep h.1)
    tree-Child zero path (dir ts) h deep = absurd (omega arith)
    tree-Child (suc fuel) path (dir ts) h deep =
        dir-Child (get_directory_size (suc fuel)) path (entries_size ts) (u64 (entries_size ts)) h.0
          (omega arith)
          (listed_size fuel path (names ts) (entries_size ts) h.1
            λ s. entries_sum fuel path ts h.2 (omega arith) 0 s (omega arith))

    entries_sum :
        (fuel : ℕ) (path : Bytes) (ts : Entries)
        → AreIn path ts
        → entries_depth ts ≤ fuel
        → (size : ℕ) (s : Sys) → size < 18446744073709551616
        → (sum_children (get_directory_size fuel) path size (names ts) s).0
          ≡ some (u64 (size + entries_size ts))
    entries_sum fuel path end h deep size s small = sum_end _ path size s ∙ ap some (omega arith)
    entries_sum fuel path (entry name t ts) h deep size s small =
        sum-Child (get_directory_size fuel) path name (names ts) (tree_size t) (entries_size ts)
          size (tree-Child fuel (join path name) t h.0 (ground arith))
          (λ size s small. entries_sum fuel path ts h.1 (ground arith) size s small) s

  -- On a device that holds a tree below a directory, and answers for it the same throughout, with a
  -- fuel above the depth of the tree, GetDirectorySize gives the sum of the sizes of its files modulo
  -- 2 ^ 64; a directory that cannot be opened and a file without a status count nothing.
  pub get_directory_size-entries_size :
      (fuel : ℕ) (path : Bytes) (ts : Entries)
      → Lists path (names ts)
      → AreIn path ts
      → entries_depth ts < fuel
      → (s : Sys) → (get_directory_size fuel path s).0 ≡ some (u64 (entries_size ts))
  get_directory_size-entries_size zero path ts lists h deep s = absurd (omega arith)
  get_directory_size-entries_size (suc fuel) path ts lists h deep s =
      listed_size fuel path (names ts) (entries_size ts) lists
        (λ s. entries_sum fuel path ts h (omega arith) 0 s (omega arith)) s
