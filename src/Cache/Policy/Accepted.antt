-- ===== src/Cache/Policy/Accepted.antt =====
-- The paths that `IsValidCachePath` of cache/cache_policy.cpp accepts.
use fresh_core_native.Prelude.{
  ◌≡◌, ◌≢◌, refl, sym, ap, ◌∙◌, ◌↔◌, ◌⊎◌, inl, inr, Bytes, bytes, bytes_eq, eq_of_bytes_eq, join,
  is_empty, Bool, true, false, not, Option, none, some, [], ◌∷◌, if◌then◌else◌, Option-cases,
  Bool-cases, arith,
}
use fresh_core_native.Os.{Env, Call}
use fresh_core_native.Sys.{Sys}
use fresh_core_native.Sys.Monad.{St, pure, ◌>>=◌, ◌>>◌}
use fresh_core_native.Sys.Monad
use fresh_core_native.Filesystem.{is_under, get_canonical_path, is_path_under_root}
use fresh_core_native.Filesystem.Under.{is_under_iff}
use fresh_core_native.Cache.Policy.{after_last_slash, is_cache_name, is_valid_cache_path}

-- The path ends in a slash and the name.
abbrev pub EndsIn : Bytes → Bytes → Type 0
EndsIn name path = (dir : Bytes) × (path ≡ join dir name)

after_last_slash_split : (path name : Bytes) → after_last_slash path ≡ some name → EndsIn name path
unfolding after_last_slash
after_last_slash_split [] name h = ground arith
after_last_slash_split (c ∷ s) name h = elim (Option-cases (after_last_slash s)) [
  | inl e ↦ ([], ground (arith, e))
  | inr e ↦
      (let (dir, same) = after_last_slash_split s name ground (arith, e.1) in
        (c ∷ dir, ap (λ (t : Bytes). c ∷ t) same))
]

after_last_slash-join :
    (dir name : Bytes) → after_last_slash name ≡ none → after_last_slash (join dir name) ≡ some name
unfolding after_last_slash
after_last_slash-join [] name h = rw h refl
after_last_slash-join (c ∷ dir) name h = rw (after_last_slash-join dir name h) refl

-- The name of a package's cache directory.
abbrev pub IsCacheName : Bytes → Type 0
IsCacheName name = (name ≡ bytes "cache") ⊎ (name ≡ bytes "code_cache")

is_cache_name_sound : (name : Bytes) → is_cache_name (some name) ≡ true → IsCacheName name
unfolding is_cache_name
is_cache_name_sound name h = elim (Bool-cases (bytes_eq name (bytes "cache"))) [
  | inl e ↦ inl (eq_of_bytes_eq name (bytes "cache") e)
  | inr e ↦ inr (eq_of_bytes_eq name (bytes "code_cache") (ground (arith, e, h)))
]

-- A path to a cache directory: its last name is one.
abbrev pub IsCachePath : Bytes → Type 0
IsCachePath path = (name : Bytes) × IsCacheName name × EndsIn name path

cache_name_plain : (name : Bytes) → IsCacheName name → after_last_slash name ≡ none
unfolding after_last_slash bytes
cache_name_plain name (inl e) = ap after_last_slash e ∙ refl
cache_name_plain name (inr e) = ap after_last_slash e ∙ refl

is_cache_name_complete : (name : Bytes) → IsCacheName name → is_cache_name (some name) ≡ true
unfolding is_cache_name bytes bytes_eq
is_cache_name_complete name (inl e) = ap (λ (n : Bytes). is_cache_name (some n)) e ∙ refl
is_cache_name_complete name (inr e) = ap (λ (n : Bytes). is_cache_name (some n)) e ∙ refl

names_cache :
    (path : Bytes) (o : Option Bytes)
    → after_last_slash path ≡ o
    → is_cache_name o ≡ true
    → IsCachePath path
unfolding is_cache_name
names_cache path none e h = ground (arith, h)
names_cache path (some name) e h =
    (name, is_cache_name_sound name h, after_last_slash_split path name e)

last_name_iff : (path : Bytes) → (is_cache_name (after_last_slash path) ≡ true) ↔ IsCachePath path
last_name_iff path = (
  names_cache path (after_last_slash path) refl,
  λ found.
      ap (λ (p : Bytes). is_cache_name (after_last_slash p)) found.2.1
      ∙ (ap is_cache_name
            (after_last_slash-join found.2.0 found.0 (cache_name_plain found.0 found.1))
          ∙ is_cache_name_complete found.0 found.1),
)

-- A canonical path that `IsValidCachePath` lets pass, for a canonical directory of the package.
abbrev pub IsAccepted : Bytes → Bytes → Type 0
IsAccepted canon data_dir = ((rest : Bytes) × (canon ≡ join data_dir rest)) × IsCachePath canon

abbrev judged : Bool → Bytes → Bool
judged false canon = false
judged true canon = if is_empty canon then false else is_cache_name (after_last_slash canon)

judged-IsAccepted :
    (canon root : Bytes) (b : Bool)
    → root ≢ []
    → is_under canon root ≡ b
    → judged b canon ≡ true
    → IsAccepted canon root
judged-IsAccepted canon root false ne e h = ground (arith, h)
judged-IsAccepted [] root true ne e h = ground (arith, h)
judged-IsAccepted (x ∷ c) root true ne e h =
    ((is_under_iff root (x ∷ c) ne).0 e, (last_name_iff (x ∷ c)).0 h)

accepted_judged :
    (canon : Bytes) (b : Bool)
    → b ≡ true
    → is_cache_name (after_last_slash canon) ≡ true
    → judged b canon ≡ true
unfolding is_cache_name after_last_slash
accepted_judged [] b e h = ground (arith, h)
accepted_judged (x ∷ c) b e h = rw e h

judged_iff :
    (canon root : Bytes)
    → root ≢ []
    → (judged (is_under canon root) canon ≡ true) ↔ IsAccepted canon root
judged_iff canon root ne = (
  judged-IsAccepted canon root (is_under canon root) ne refl,
  λ a.
      accepted_judged canon (is_under canon root) ((is_under_iff root canon ne).1 a.0)
        ((last_name_iff canon).1 a.1),
)

module _ ⦃env : Env⦄ where
  judge : Bool → Bytes → St Bool
  judge under path = if not under then pure false else (do
    canon ← get_canonical_path path
    if is_empty canon then pure false else pure (is_cache_name (after_last_slash canon)))

  judge_empty :
      (canon : Bytes) (s : Sys)
      → ((if is_empty canon then pure false else pure (is_cache_name (after_last_slash canon))) s).0
        ≡ judged true canon
  unfolding pure
  judge_empty [] s = refl
  judge_empty (x ∷ c) s = refl

  judge-judged :
      (under : Bool) (path canon : Bytes) (s : Sys)
      → env.realpath s.calls path ≡ some canon
      → (judge under path s).0 ≡ judged under canon
  unfolding judge get_canonical_path ◌>>=◌ Monad.perform pure
  judge-judged false path canon s e = refl
  judge-judged true path canon s e = rw e (judge_empty canon _)

  under_both :
      (path root canon data_dir : Bytes) (s : Sys)
      → env.realpath s.calls path ≡ some canon
      → env.realpath (Call.realpath path ∷ s.calls) root ≡ some data_dir
      → (is_path_under_root path root s).0 ≡ is_under canon data_dir
  unfolding is_path_under_root get_canonical_path ◌>>=◌ Monad.perform pure
  under_both path root canon data_dir s first second = rw (first, second) refl

  -- Where realpath resolves the path, both times that it is asked, and the package's directory, not to
  -- the empty path, the path is accepted if and only if what it resolves to lies below that directory
  -- and its last name is "cache" or "code_cache".
  pub is_valid_cache_path_iff :
      (path package_data_dir canon data_dir : Bytes) (s : Sys)
      → env.realpath s.calls path ≡ some canon
      → env.realpath (Call.realpath path ∷ s.calls) package_data_dir ≡ some data_dir
      → env.realpath (Call.realpath package_data_dir ∷ Call.realpath path ∷ s.calls) path
        ≡ some canon
      → data_dir ≢ []
      → ((is_valid_cache_path path package_data_dir s).0 ≡ true) ↔ IsAccepted canon data_dir
  unfolding is_valid_cache_path is_path_under_root get_canonical_path ◌>>=◌ Monad.perform pure judge
  is_valid_cache_path_iff path package_data_dir canon data_dir s first root second ne =
      let value : (is_valid_cache_path path package_data_dir s).0
          ≡ judged (is_under canon data_dir) canon =
        judge-judged (is_path_under_root path package_data_dir s).0 path canon
          (is_path_under_root path package_data_dir s).1 second
        ∙ ap (λ b. judged b canon) (under_both path package_data_dir canon data_dir s first root) in
      let (there, back) = judged_iff canon data_dir ne in
      (λ h. there (sym value ∙ h), λ a. value ∙ back a)
