-- ===== src/Utils.antt =====
-- pkg/utils/utils.go: the helpers that the services share.
-- The environment is a parameter: `glob` is `doublestar.Glob` in the repository's folder.
pub mod Paths
pub mod Version
pub mod Args
pub mod Host
unfoldable pub use Paths.*
unfoldable pub use Version.*
unfoldable pub use Args.*
use test_at_scale.Prelude.{
  ℕ, String, ◌⧺◌, Bool, true, false, List, [], ◌∷◌, ltb, str_eq, if◌then◌else◌, length, ◌==◌,
}
use test_at_scale.Errs.{Result, ok, error, ◌>>◌, refuse_if}
use test_at_scale.Models.{SubModule}

-- `Min`, on numbers that are not negative.
unfoldable pub min_int : ℕ → ℕ → ℕ
min_int x y = if ltb y x then y else x

-- `ValidateSubModule`
unfoldable pub validate_sub_module : SubModule → Result (Unit {0})
validate_sub_module m = do
  refuse_if (str_eq m.name "") (error "module name is not defined")
  refuse_if (str_eq m.path "") (error ("module path is not defined for module " ⧺ m.name ⧺ " "))
  refuse_if (length m.patterns == 0) (error ("module " ⧺ m.name ⧺ " pattern length is 0"))
  ok tt
