-- ===== src/Command/Environment.antt =====
-- What a command of pkg/command/run.go finds in its environment.
use mathlib.Core.Path.{subst}
use test_at_scale.Prelude.{String, ◌⧺◌, ◌≡◌, refl, List, [], ◌∷◌, ◌++◌, Dict}
use test_at_scale.Errs.{ok, >>=-eq-ok}
use test_at_scale.Secret.{substitute_secret}
use test_at_scale.Command.{Shell, env_entries, get_env_variables}

-- A list of entries that spells the variables in their order, each value with its secrets.
abbrev pub Spells : Shell → Dict String → Dict String → List String → Type 0
Spells sh secrets [] [] = Unit
Spells sh secrets [] (line ∷ lines) = ⊥
Spells sh secrets (entry ∷ env) [] = ⊥
Spells sh secrets (entry ∷ env) (line ∷ lines) =
    ((value : String) × (substitute_secret sh.matches entry.1 secrets ≡ ok value)
      × (line ≡ entry.0 ⧺ "=" ⧺ value))
    × Spells sh secrets env lines

env_entries-Spells :
    (sh : Shell) (secrets env : Dict String) (lines : List String)
    → env_entries sh secrets env ≡ ok lines
    → Spells sh secrets env lines
unfolding env_entries
env_entries-Spells sh secrets [] [] h = tt
env_entries-Spells sh secrets [] (line ∷ lines) h = cc
env_entries-Spells sh secrets ((key, value) ∷ env) lines h =
    let (val, found, h1) = >>=-eq-ok (substitute_secret sh.matches value secrets) _ h in
    let (rest, spelled, h2) = >>=-eq-ok (env_entries sh secrets env) _ h1 in
    let built : (key ⧺ "=" ⧺ val) ∷ rest ≡ lines = cc h2 in
    subst (λ l. Spells sh secrets ((key, value) ∷ env) l) built
      ((val, found, refl), env_entries-Spells sh secrets env rest spelled)

-- The environment of a command, when there is one, is that of the process and behind it one entry for
-- each variable of the map, in its order, with the secrets of its value substituted.
get_env_variables-Spells :
    (sh : Shell) (env secrets : Dict String) (lines : List String)
    → get_env_variables sh env secrets ≡ ok lines
    → (entries : List String) × (lines ≡ sh.environ ++ entries) × Spells sh secrets env entries
unfolding get_env_variables
get_env_variables-Spells sh env secrets lines h =
    let (entries, spelled, h1) = >>=-eq-ok (env_entries sh secrets env) _ h in
    (entries, cc h1, env_entries-Spells sh secrets env entries spelled)
