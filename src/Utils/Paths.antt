-- ===== src/Utils/Paths.antt =====
-- `GetConfigFileName` and `GetTASFilePath` of pkg/utils/utils.go, and the functions of path/filepath
-- and strings that they call.
use Prim.Native.Char.{code}
use Prim.Native.String.{[], ◌∷◌}
use mathlib.Core.List.{List, [], ◌∷◌}
use test_at_scale.Prelude.{
  String, trim_suffix, Bool, false, ◌||◌, ◌&&◌, not, ◌⧺◌, str_eq, ◌==◌, if◌then◌else◌,
}
use test_at_scale.Errs.{Result, ok, err, error, ◌>>=◌}
use mathlib.Core.Path.{◌≡◌, refl}

has_slash : String → Bool
has_slash [] = false
has_slash (c ∷ s) = code c == b'/' || has_slash s

-- `filepath.Ext`: from the last dot of the last element of the path.
unfoldable pub ext : String → String
unfolding has_slash
ext [] = ""
ext (c ∷ s) =
    let rest = ext s in
    if not (str_eq rest "") then rest else if code c == b'.' && not (has_slash s) then c ∷ s else ""

-- `strings.TrimSuffix`
abbrev first_match : String → List String → Result String
first_match path [] = err (
    error (
      "`" ⧺ path
      ⧺ "` configuration file not found at the root of your project. Please make sure you have placed it correctly."))
first_match path (m ∷ ms) = ok m

module _ (test_env : Bool) (glob : String → List String) where
  pub get_config_file_name : String → Result String
  get_config_file_name path =
      if test_env
      then ok path
      else if str_eq (ext path) ".yaml" || str_eq (ext path) ".yml"
      then first_match path (glob (trim_suffix path (ext path) ⧺ ".{yml,yaml}"))
      else ok path

  pub get_tas_file_path : String → Result String
  get_tas_file_path path = do
    name ← get_config_file_name path
    ok ("/home/nucleus/repo" ⧺ "/" ⧺ name)

base_name : ext "conf/.tas.yml" ≡ ".yml"
unfolding ext
base_name = refl
