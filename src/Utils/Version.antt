-- ===== src/Utils/Version.antt =====
-- `GetVersion` of pkg/utils/utils.go: the major version of a configuration, read by `strings.Split`
-- and `strconv.Atoi`. `read` is what `yaml.Unmarshal` leaves in the field `version`, which starts as
-- "1.0.0"; it is `err` where the text is no yaml.
pub mod Reads
use Prim.Native.Char.{code}
use Prim.Native.String.{[], ◌∷◌}
use test_at_scale.Prelude.{
  ℕ, ◌+◌, ◌-◌, ◌*◌, ◌^◌, String, Bool, ◌||◌, ◌&&◌, Option, none, some, leb, ltb, ◌==◌,
  if◌then◌else◌,
}
use test_at_scale.Errs.{Result, ok, err, error, panicked}
use test_at_scale.Models.{ℤ}
use test_at_scale.Format.{atoi}

-- `strings.Split(s, ".")[0]`
unfoldable pub before_dot : String → String
before_dot [] = []
before_dot (c ∷ s) = let rest = before_dot s in if code c == b'.' then [] else c ∷ rest

abbrev parsed : Option ℤ → Result ℤ
parsed none = err (error "error while parsing version for tas yml")
parsed (some v) = ok v

abbrev from_version : Result String → Result ℤ
from_version (ok version) = parsed (atoi (before_dot version))
from_version (err e) = err (error "error in unmarshling tas yml file")
from_version panicked = panicked

unfoldable pub get_version : (String → Result String) → String → Result ℤ
get_version read content = from_version (read content)
