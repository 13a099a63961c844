-- ===== src/Cache/Roots.antt =====
-- The directories below which the daemon may remove files.
use fresh_core_native.Prelude.{
  ◌≡◌, refl, ◌∙◌, Bytes, bytes, slash, join, [], ◌∷◌, append_assoc, ap, All, Bool, true, false,
  if◌then◌else◌,
}
use fresh_core_native.CacheData.{PackageInfo, CacheDirInfo, MaintenanceTarget}
use fresh_core_native.Config.{Configuration}
use fresh_core_native.Cache.Scanner.Candidates.{
  cache_of, code_cache_of, external_cache_of, candidates,
}

pub data IsRoot : Bytes → Type 0 where
  tombstones : IsRoot (bytes "/data/tombstones")
  dropbox : IsRoot (bytes "/data/system/dropbox")
  tmp : IsRoot (bytes "/data/local/tmp")
  cache : (data_dir : Bytes) → IsRoot (cache_of data_dir)
  code_cache : (data_dir : Bytes) → IsRoot (code_cache_of data_dir)
  external_cache : (name : Bytes) → IsRoot (external_cache_of name)

-- A path strictly below a root.
pub record IsCleanable (path : Bytes) : Type 0 where
  pub root : Bytes
  pub rest : Bytes
  pub is_root : IsRoot root
  pub is_below : path ≡ join root rest

pub IsCleanable-root : (root name : Bytes) → IsRoot root → IsCleanable (join root name)
IsCleanable-root root name r = record { root = root; rest = name; is_root = r; is_below = refl }

pub IsCleanable-join : (path name : Bytes) → IsCleanable path → IsCleanable (join path name)
IsCleanable-join path name c = record {
  root = c.root;
  rest = join c.rest name;
  is_root = c.is_root;
  is_below =
      ap (λ (p : Bytes). join p name) c.is_below
      ∙ append_assoc c.root (slash ∷ c.rest) (slash ∷ name);
}

abbrev pub DirIsRoot : CacheDirInfo → Type 0
DirIsRoot dir = IsRoot dir.path

abbrev pub TargetIsRoot : MaintenanceTarget → Type 0
TargetIsRoot target = IsRoot target.cache_dir.path

external-IsRoot :
    (b : Bool) (name : Bytes) → All IsRoot (if b then external_cache_of name ∷ [] else [])
external-IsRoot true name = (external_cache name, tt)
external-IsRoot false name = tt

pub candidates-IsRoot : (c : Configuration) (pkg : PackageInfo) → All IsRoot (candidates c pkg)
unfolding candidates
candidates-IsRoot c pkg = (
  cache pkg.data_dir,
  (code_cache pkg.data_dir, external-IsRoot c.include_external_cache pkg.name),
)
