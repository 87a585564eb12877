-- ===== src/Blocklist/Tests.antt =====
-- A list of one yaml entry and one remote entry.
use test_at_scale.Prelude.{◌≡◌, refl, some, List, [], ◌∷◌, Dict}
use test_at_scale.Errs.{got, foreign}
use test_at_scale.Blocklist.{ApiEntry, Remote, new_service, get_block_tests}
use test_at_scale.Blocklist.Populate.{BlockTest}
use test_at_scale.Blocklist.Laws.{IsBlocklistOf, first_call_writes}

abbrev entry : ApiEntry
entry = record { name = "t"; test_locator = "a.js##t"; status = "quarantined" }

abbrev remote : Remote
remote = record {
  request = λ _. (200, got "[]");
  unmarshal = λ _. got (entry ∷ []);
  write_file = λ _. some (foreign "disk full");
}

first_call_writes_example :
    (m : Dict (List BlockTest)) × IsBlocklistOf ("a.js" ∷ []) (entry ∷ []) m
    × ((get_block_tests remote ("a.js" ∷ []) "main" new_service).1 ≡ some (foreign "disk full"))
first_call_writes_example =
    first_call_writes remote ("a.js" ∷ []) "main" "[]" 200 (entry ∷ []) refl refl refl
