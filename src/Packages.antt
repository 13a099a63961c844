-- ===== src/Packages.antt =====
-- android/package_manager.cpp
pub mod Calls
pub mod RoundTrip
use fresh_core_native.Prelude.{Bytes, bytes, ℤ, pos, ltb_ℤ, Option, none, some, List, [], ◌∷◌}
use fresh_core_native.CacheData.{PackageInfo}
use fresh_core_native.Config.{lines}
use fresh_core_native.Os.{Env, Call}
use fresh_core_native.Streams.{read_word, read_int}
use fresh_core_native.Sys.Monad.{St, pure, perform, ◌>>=◌, ◌>>◌}

abbrev pub packages_list : Bytes
packages_list = bytes "/data/system/packages.list"

-- iss >> info.name >> info.uid >> debuggable >> info.data_dir, an extraction after another.
with_data_dir : Bytes → ℤ → Option (Bytes × Bytes) → Option PackageInfo
with_data_dir name uid none = none
with_data_dir name uid (some (data_dir, _)) =
    some (record { name = name; data_dir = data_dir; uid = uid; is_system = ltb_ℤ uid (pos 10000) })

with_debuggable : Bytes → ℤ → Option (Bytes × Bytes) → Option PackageInfo
unfolding with_data_dir
with_debuggable name uid none = none
with_debuggable name uid (some (_, rest)) = with_data_dir name uid (read_word rest)

with_uid : Bytes → Option (ℤ × Bytes) → Option PackageInfo
unfolding with_debuggable
with_uid name none = none
with_uid name (some (uid, rest)) = with_debuggable name uid (read_word rest)

with_name : Option (Bytes × Bytes) → Option PackageInfo
unfolding with_uid
with_name none = none
with_name (some (name, rest)) = with_uid name (read_int rest)

unfoldable pub parse_package : Bytes → Option PackageInfo
unfolding with_name read_word read_int
parse_package line = with_name (read_word line)

abbrev push : Option PackageInfo → List PackageInfo → List PackageInfo
push none packages = packages
push (some info) packages = info ∷ packages

unfoldable pub parse_packages : List Bytes → List PackageInfo
unfolding parse_package
parse_packages [] = []
parse_packages (line ∷ rest) = push (parse_package line) (parse_packages rest)

abbrev packages_of : Option Bytes → List PackageInfo
packages_of none = []
packages_of (some content) = parse_packages (lines content)

module _ ⦃env : Env⦄ where
  unfoldable pub get_installed_packages : St (List PackageInfo)
  unfolding parse_packages lines
  get_installed_packages = do
    list_file ← perform (Call.read_file packages_list) (λ h. env.file h packages_list)
    pure (packages_of list_file)
