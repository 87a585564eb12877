-- ===== src/Utils/Args.antt =====
-- `GetArgs` of pkg/utils/utils.go with the maps of pkg/global/nucleusconstants.go.
use test_at_scale.Prelude.{String, List, [], ◌∷◌, ◌++◌, str_eq, not, if◌then◌else◌, ◌||◌}
use test_at_scale.Models.{ℤ}
use test_at_scale.Format.{decimal}

-- `global.FrameworkLanguageMap`; an unknown framework has the empty language.
unfoldable pub framework_language : String → String
framework_language framework =
    if str_eq framework "jasmine" || str_eq framework "mocha" || str_eq framework "jest"
    then "javascript"
    else if str_eq framework "golang"
    then "golang"
    else if str_eq framework "junit"
    then "java"
    else ""

-- `global.FrameworkRunnerMap`
unfoldable pub framework_runner : String → String
framework_runner framework =
    if str_eq framework "jasmine"
    then "./node_modules/.bin/jasmine-runner"
    else if str_eq framework "mocha"
    then "./node_modules/.bin/mocha-runner"
    else if str_eq framework "jest"
    then "./node_modules/.bin/jest-runner"
    else if str_eq framework "golang"
    then "/home/nucleus/server"
    else if str_eq framework "junit"
    then "java"
    else ""

unfoldable pub pattern_args : List String → List String
pattern_args [] = []
pattern_args (pattern ∷ target) = "--pattern" ∷ pattern ∷ pattern_args target

unfoldable pub get_args : String → String → ℤ → String → List String → List String
get_args command framework version config_file target =
    (if str_eq (framework_language framework) "java"
      then "-jar"
        ∷ "/test-at-scale-java.jar"
        ∷ "--command"
        ∷ command
        ∷ "--frameworkVersion"
        ∷ decimal version
        ∷ []
      else "--command" ∷ command ∷ [])
    ++ ((if not (str_eq config_file "") then "--config" ∷ config_file ∷ [] else [])
        ++ pattern_args target)
