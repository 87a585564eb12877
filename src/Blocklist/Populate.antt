-- ===== src/Blocklist/Populate.antt =====
-- `populateBlockList`: each locator ends with the delimiter, and is filed under what stands before
-- its first delimiter, the name of its test file.
use Prim.Native.String.{[], ◌∷◌}
use mathlib.Core.List.{List, [], ◌∷◌}
use test_at_scale.Prelude.{
  String, ◌⧺◌, Option, none, some, ◌++◌, Dict, lookup, insert, has_prefix, has_suffix,
  if◌then◌else◌,
}

-- `blocktest`
pub record BlockTest : Type 0 where
  pub source : String
  pub locator : String
  pub status : String

-- `blocktestLocator`
pub record Locator : Type 0 where
  pub locator : String
  pub status : String

-- What stands before the first delimiter; the whole text if there is none.
unfoldable pub before_delimiter : String → String
before_delimiter [] = []
before_delimiter (c ∷ s) =
    let rest = before_delimiter s in if has_prefix (c ∷ s) "##" then [] else c ∷ rest

unfoldable pub with_delimiter : String → String
with_delimiter locator = if has_suffix locator "##" then locator else locator ⧺ "##"

abbrev pub append_entry : Option (List BlockTest) → BlockTest → List BlockTest
append_entry none entity = entity ∷ []
append_entry (some val) entity = val ++ entity ∷ []

-- One round of the loop.
unfoldable pub populate_one : String → Dict (List BlockTest) → Locator → Dict (List BlockTest)
populate_one source m test =
    let locator = with_delimiter test.locator in
    let entity : BlockTest = record { source = source; locator = locator; status = test.status } in
    let key = before_delimiter locator in insert key (append_entry (lookup key m) entity) m

unfoldable pub populate : String → Dict (List BlockTest) → List Locator → Dict (List BlockTest)
populate source m [] = m
populate source m (test ∷ tests) = populate source (populate_one source m test) tests
