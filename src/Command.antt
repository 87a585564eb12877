-- ===== src/Command.antt =====
-- pkg/command/run.go and script.go: the commands of a user and of the program, as scripts for bash.
-- The environment of the process, the verb %q of package fmt, the regular expression of the secrets,
-- bash and the upload of the logs answer through `Shell`. The output, which is masked, is left out.
pub mod Environment
pub mod Tests
use test_at_scale.Prelude.{
  String, ◌⧺◌, Bool, Option, none, some, List, [], ◌∷◌, ◌++◌, Dict, leb, length, if◌then◌else◌,
}
use test_at_scale.Errs.{Err, Result, ok, err, panicked, check, ◌>>=◌, ◌>>◌}
use test_at_scale.Models.{Run}
use test_at_scale.Url.{replace_all}
use test_at_scale.Secret.{substitute_secret}

pub record Shell : Type 0 where
  pub environ : List String
  pub quote : String → String
  pub matches : String → List (List String)
  pub execute : String → List String → String → Option Err
  pub upload_logs : Option Err

-- `GetEnvVariables`: what the process has, and behind it the map, its secrets substituted.
unfoldable pub env_entries : Shell → Dict String → Dict String → Result (List String)
env_entries sh secrets [] = ok []
env_entries sh secrets ((key, value) ∷ env) = do
  val ← substitute_secret sh.matches value secrets
  rest ← env_entries sh secrets env
  ok ((key ⧺ "=" ⧺ val) ∷ rest)

unfoldable pub get_env_variables : Shell → Dict String → Dict String → Result (List String)
unfolding env_entries
get_env_variables sh env secrets = do
  entries ← env_entries sh secrets env
  ok (sh.environ ++ entries)

abbrev pub option_script : String
option_script = "\nset -e\n"

-- `traceScript`, which echoes a command before it.
abbrev pub trace_script : String → String → String
trace_script escaped command = "\necho + " ⧺ escaped ⧺ "\n" ⧺ command ⧺ "\n"

abbrev pub escape : Shell → String → String
escape sh command = replace_all (sh.quote command) "$" "\\$"

unfoldable pub trace_commands : Shell → Dict String → List String → Result String
trace_commands sh secrets [] = ok ""
trace_commands sh secrets (command ∷ commands) = do
  line ← if leb 1 (length secrets) then substitute_secret sh.matches command secrets else ok command
  rest ← trace_commands sh secrets commands
  ok (trace_script (escape sh command) line ⧺ rest)

unfoldable pub create_script : Shell → List String → Dict String → Result String
unfolding trace_commands
create_script sh commands secrets = do
  body ← trace_commands sh secrets commands
  ok ("\n" ⧺ option_script ⧺ "\n" ⧺ body)

abbrev or_empty_dict : Option (Dict String) → Dict String
or_empty_dict none = []
or_empty_dict (some d) = d

-- `ExecuteUserCommands`; a failing upload of the logs fails a command that has succeeded.
unfoldable pub execute_user_commands : Shell → Run → Dict String → String → Result (Unit {0})
unfolding create_script get_env_variables
execute_user_commands sh run secrets cwd = do
  script ← create_script sh run.commands secrets
  env ← get_env_variables sh (or_empty_dict run.env_map) secrets
  check (sh.execute script env cwd)
  check sh.upload_logs

-- `strings.Join(commands, " && ")`
unfoldable pub join_commands : List String → String
join_commands [] = ""
join_commands (command ∷ []) = command
join_commands (command ∷ next ∷ commands) = command ⧺ " && " ⧺ join_commands (next ∷ commands)

-- `ExecuteInternalCommands`, which runs in the environment of the process.
unfoldable pub execute_internal_commands : Shell → List String → String → Result (Unit {0})
unfolding join_commands
execute_internal_commands sh commands cwd =
    check (sh.execute (join_commands commands) sh.environ cwd)
