-- ===== src/Command/Tests.antt =====
-- A command with one variable.
use test_at_scale.Prelude.{◌≡◌, refl, none, [], ◌∷◌}
use test_at_scale.Errs.{ok}
use test_at_scale.Secret.{substitute_secret}
use test_at_scale.Command.{Shell, env_entries, get_env_variables, join_commands}

abbrev pub shell : Shell
shell = record {
  environ = "HOME=/root" ∷ [];
  quote = λ text. text;
  matches = λ _. [];
  execute = λ _ _ _. none;
  upload_logs = none;
}

joins : join_commands ("cd a" ∷ "ls" ∷ []) ≡ "cd a && ls"
unfolding join_commands
joins = refl

pub one_variable : get_env_variables shell (("A", "1") ∷ []) [] ≡ ok ("HOME=/root" ∷ "A=1" ∷ [])
unfolding get_env_variables env_entries substitute_secret
one_variable = refl
