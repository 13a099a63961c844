-- ===== src/Cache/Scanner/Trees.antt =====
-- Directory trees on a device, for the sizes of cache/package_scanner.cpp.
pub mod Size
use fresh_core_native.Prelude.{
  ℕ, ◌+◌, ◌≡◌, Bytes, join, true, false, none, some, List, [], ◌∷◌, ltb, if◌then◌else◌,
}
use fresh_core_native.Os.{Env, History}
use fresh_core_native.Filesystem.Listing.{Lists}

-- `gone`: lstat fails. `closed`: a directory that cannot be opened.
mutual
  pub data Tree : Type 0 where
    gone : Tree
    file : ℕ → Tree
    closed : Tree
    dir : Entries → Tree

  pub data Entries : Type 0 where
    end : Entries
    entry : Bytes → Tree → Entries → Entries

abbrev pub names : Entries → List Bytes
names end = []
names (entry name t ts) = name ∷ names ts

abbrev max : ℕ → ℕ → ℕ
max m n = if ltb m n then n else m

-- The sizes of the files, added up; and how deep the directories go.
unfoldable mutual
  pub tree_size : Tree → ℕ
  tree_size gone = 0
  tree_size (file n) = n
  tree_size closed = 0
  tree_size (dir ts) = entries_size ts

  pub entries_size : Entries → ℕ
  entries_size end = 0
  entries_size (entry name t ts) = tree_size t + entries_size ts

unfoldable mutual
  pub depth : Tree → ℕ
  depth gone = 0
  depth (file n) = 0
  depth closed = 1
  depth (dir ts) = 1 + entries_depth ts

  pub entries_depth : Entries → ℕ
  entries_depth end = 0
  entries_depth (entry name t ts) = max (depth t) (entries_depth ts)

module _ ⦃env : Env⦄ where
  abbrev pub IsDir : Bytes → Type 0
  IsDir path =
      (size mtime : ℕ) × ((h : History)
        → env.lstat h path ≡ some (record { is_dir = true; size = size; mtime = mtime }))

  -- The device holds the tree at the path, whenever it is asked.
  unfoldable mutual
    pub IsAt : Bytes → Tree → Type 0
    IsAt path gone = (h : History) → env.lstat h path ≡ none
    IsAt path (file n) =
        (mtime : ℕ) × ((h : History)
          → env.lstat h path ≡ some (record { is_dir = false; size = n; mtime = mtime }))
    IsAt path closed = IsDir path × ((h : History) → env.open_dir h path ≡ false)
    IsAt path (dir ts) = IsDir path × Lists path (names ts) × AreIn path ts

    pub AreIn : Bytes → Entries → Type 0
    AreIn path end = Unit
    AreIn path (entry name t ts) = IsAt (join path name) t × AreIn path ts
