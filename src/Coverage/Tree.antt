-- ===== src/Coverage/Tree.antt =====
-- Directories as filepath.WalkDir visits them, and the walk of `copyFromParentCommitDir` in
-- pkg/service/coverage/coverage.go.
use test_at_scale.Prelude.{
  String, Bool, false, ◌||◌, Option, List, [], ◌∷◌, ◌++◌, str_eq, any, if◌then◌else◌,
}
use test_at_scale.Errs.{Err, Result, ok, check, ◌>>=◌, ◌>>◌}

-- What stands in a directory, in the order of the walk.
pub data Entries : Type 0 where
  empty : Entries
  file : String → Entries → Entries
  dir : String → Entries → Entries → Entries

-- Whether `Lstat` finds a name in a directory.
unfoldable pub has : String → Entries → Bool
has name empty = false
has name (file n es) = str_eq n name || has name es
has name (dir n sub es) = str_eq n name || has name es

unfoldable pub add_dir : String → Entries → Entries → Entries
add_dir name sub empty = dir name sub empty
add_dir name sub (file n es) = file n (add_dir name sub es)
add_dir name sub (dir n s es) = dir n s (add_dir name sub es)

unfoldable pub remove_first : String → List String → List String
remove_first name [] = []
remove_first name (n ∷ ns) =
    let rest = remove_first name ns in if str_eq name n then ns else n ∷ rest

-- The directory of the commit that is copied to, and the removed files that were not met yet.
pub record Copying : Type 0 where
  pub removed : List String
  pub own : Entries

-- A directory that is not there yet is copied, which can fail.
abbrev pub copy_dir : (String → Option Err) → String → Entries → Copying → Result Copying
copy_dir copy name sub st =
    if has name st.own
    then ok st
    else check (copy name) >> ok (record st { own = add_dir name sub st.own })

-- A directory of a removed file is passed over.
abbrev pub enter : (String → Option Err) → String → Entries → Copying → Result Copying
enter copy name sub st =
    if any (str_eq name) st.removed
    then ok (record st { removed = remove_first name st.removed })
    else copy_dir copy name sub st

-- A directory with the name of the walk's root is not copied itself; the walk goes on inside.
unfoldable pub walk : (String → Option Err) → String → Entries → Copying → Result Copying
walk copy base empty st = ok st
walk copy base (file name es) st = walk copy base es st
walk copy base (dir name sub es) st =
    let inside = walk copy base sub st in
    (if str_eq name base then inside else enter copy name sub st) >>= λ st'. walk copy base es st'

-- The paths of the entries with a name, wherever they stand.
unfoldable pub paths_of : (String → String → String) → String → String → Entries → List String
paths_of join wanted path empty = []
paths_of join wanted path (file name es) =
    let rest = paths_of join wanted path es in
    if str_eq name wanted then join path name ∷ rest else rest
paths_of join wanted path (dir name sub es) =
    let rest = paths_of join wanted (join path name) sub ++ paths_of join wanted path es in
    if str_eq name wanted then join path name ∷ rest else rest
