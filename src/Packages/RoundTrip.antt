-- ===== src/Packages/RoundTrip.antt =====
-- `GetInstalledPackages` of android/package_manager.cpp on a written list of packages.
use fresh_core_native.Prelude.{
  ℕ, ◌<◌, ◌≡◌, refl, ap, ◌∙◌, Bytes, pos, ltb_ℤ, false, some, List, [], ◌∷◌, ◌++◌, ◌==◌, All,
  All-append, All-map, map, arith,
}
use fresh_core_native.CacheData.{PackageInfo}
use fresh_core_native.Config.{lines}
use fresh_core_native.Config.Decimal.{IsDigit, digits, digits-All}
use fresh_core_native.Os.{Env}
use fresh_core_native.Sys.{Sys}
use fresh_core_native.Sys.Monad.{pure, ◌>>=◌}
use fresh_core_native.Sys.Monad
use fresh_core_native.Streams.Words.{
  IsWordByte, IsWord, is_word, read_word-append, read_word_space, read_int-digits,
}
use fresh_core_native.Packages.{
  packages_list, with_data_dir, with_debuggable, with_uid, with_name, parse_package, parse_packages,
  get_installed_packages,
}

-- A line of the list: the name, the uid, whether debuggable, the data directory, and what follows.
pub record Entry : Type 0 where
  pub name : Bytes
  pub uid : ℕ
  pub debuggable : Bytes
  pub data_dir : Bytes
  pub rest : Bytes

abbrev pub entry_text : Entry → Bytes
entry_text e =
    e.name ++ 32 ∷ digits 10 e.uid (32 ∷ (e.debuggable ++ 32 ∷ (e.data_dir ++ 32 ∷ e.rest)))

abbrev pub info_of : Entry → PackageInfo
info_of e = record {
  name = e.name;
  data_dir = e.data_dir;
  uid = pos e.uid;
  is_system = ltb_ℤ (pos e.uid) (pos 10000);
}

abbrev IsInLine : ℕ → Type 0
IsInLine c = (c == 10) ≡ false

-- The fields are words, the uid fits an int, and what follows has no newline.
pub record IsEntry (e : Entry) : Type 0 where
  pub name : IsWord e.name
  pub uid : e.uid < 2147483648
  pub debuggable : IsWord e.debuggable
  pub data_dir : IsWord e.data_dir
  pub rest : All IsInLine e.rest

parse_package-entry_text : (e : Entry) → IsEntry e → parse_package (entry_text e) ≡ some (info_of e)
unfolding parse_package with_name with_uid with_debuggable with_data_dir
parse_package-entry_text e h =
    rw
      (
        read_word-append e.name
            (digits 10 e.uid (32 ∷ (e.debuggable ++ 32 ∷ (e.data_dir ++ 32 ∷ e.rest)))) h.name,
        read_int-digits e.uid (e.debuggable ++ 32 ∷ (e.data_dir ++ 32 ∷ e.rest)) h.uid,
        read_word_space (e.debuggable ++ 32 ∷ (e.data_dir ++ 32 ∷ e.rest)),
        read_word-append e.debuggable (e.data_dir ++ 32 ∷ e.rest) h.debuggable,
        read_word_space (e.data_dir ++ 32 ∷ e.rest),
        read_word-append e.data_dir e.rest h.data_dir,
      )
      refl

lines_line : (s rest : Bytes) → All IsInLine s → lines (s ++ 10 ∷ rest) ≡ s ∷ lines rest
unfolding lines
lines_line [] rest h = refl
lines_line (c ∷ s) rest h = rw (h.0, lines_line s rest h.1) refl

word-IsInLine : (c : ℕ) → IsWordByte c → IsInLine c
word-IsInLine c h = ground (arith, h)

IsWord-IsInLine : (w : Bytes) → IsWord w → All IsInLine w
IsWord-IsInLine _ (is_word {c} {s} hc hs) =
    (word-IsInLine c hc, All-map IsWordByte IsInLine word-IsInLine s hs)

digit-IsInLine : (c : ℕ) → IsDigit c → IsInLine c
digit-IsInLine c h = ground (arith, h)

spaced-IsInLine : (w rest : Bytes) → IsWord w → All IsInLine rest → All IsInLine (w ++ 32 ∷ rest)
spaced-IsInLine w rest hw hr = All-append IsInLine w (32 ∷ rest) (IsWord-IsInLine w hw) (refl, hr)

entry_text-IsInLine : (e : Entry) → IsEntry e → All IsInLine (entry_text e)
entry_text-IsInLine e h = spaced-IsInLine e.name _ h.name (
    digits-All IsInLine digit-IsInLine 10 e.uid _ (
      refl,
      spaced-IsInLine e.debuggable _ h.debuggable
          (spaced-IsInLine e.data_dir e.rest h.data_dir h.rest),
    ))

-- The list with a line for each package, ended by a newline.
abbrev pub list_text : List Entry → Bytes
list_text [] = []
list_text (e ∷ es) = entry_text e ++ 10 ∷ list_text es

parse_packages-list_text :
    (es : List Entry) → All IsEntry es → parse_packages (lines (list_text es)) ≡ map info_of es
unfolding parse_packages lines
parse_packages-list_text [] h = refl
parse_packages-list_text (e ∷ es) h =
    ap parse_packages (lines_line (entry_text e) (list_text es) (entry_text-IsInLine e h.0))
    ∙ rw (parse_package-entry_text e h.0, parse_packages-list_text es h.1) refl

module _ ⦃env : Env⦄ where
  -- Where packages.list can be read and has a line for each package, of the name, the uid in decimal,
  -- the flag, the data directory and a rest, with a space between them, GetInstalledPackages gives
  -- these packages in their order, and takes those with a uid below 10000 for system packages; the
  -- fields are words without white space, the uid fits an int, and the rest has no newline.
  pub get_installed_packages-list_text :
      (es : List Entry) (s : Sys)
      → All IsEntry es
      → env.file s.calls packages_list ≡ some (list_text es)
      → (get_installed_packages s).0 ≡ map info_of es
  unfolding get_installed_packages ◌>>=◌ Monad.perform pure
  get_installed_packages-list_text es s h file = rw file (parse_packages-list_text es h)
