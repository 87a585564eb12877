-- ===== src/Blocklist.antt =====
-- pkg/blocktestservice/setup.go: the blocklist of tests, from the yaml file and from neuron.
-- What the service reaches outside is `Remote`: the answer of the API request as a status code with
-- an error or a body, `json.Unmarshal` of a body, `json.Marshal` and the write of the file as one
-- step on the entities. `errChan` holds one error at most, and `once` is `done`.
pub mod Populate
pub mod Laws
pub mod Tests
unfoldable pub use Populate.*
use test_at_scale.Prelude.{
  ℕ, String, Bool, true, false, Option, none, some, List, [], ◌∷◌, Dict, map, ◌==◌, if◌then◌else◌,
}
use test_at_scale.Errs.{Err, Reply, got, refused}
use test_at_scale.Models.{blocklisted}

-- `blocktestAPIResponse`
pub record ApiEntry : Type 0 where
  pub name : String
  pub test_locator : String
  pub status : String

pub record Remote : Type 0 where
  pub request : String → ℕ × Reply String
  pub unmarshal : String → Reply (List ApiEntry)
  pub write_file : Dict (List BlockTest) → Option Err

-- `TestBlockTestService`: the entities are nil once they were written.
pub record Service : Type 0 where
  pub entities : Option (Dict (List BlockTest))
  pub done : Bool
  pub err_chan : Option Err

-- `NewTestBlockTestService`
abbrev pub new_service : Service
new_service = record { entities = some []; done = false; err_chan = none }

abbrev pub of_api : ApiEntry → Locator
of_api e = record { locator = e.test_locator; status = e.status }

abbrev pub of_yaml : String → Locator
of_yaml locator = record { locator = locator; status = blocklisted }

abbrev with_api : Dict (List BlockTest) → Reply (List ApiEntry) → Reply (Dict (List BlockTest))
with_api m (got entries) = got (populate "api" m (map of_api entries))
with_api m (refused e) = refused e

abbrev unmarshalled : Remote → Dict (List BlockTest) → Reply String → Reply (Dict (List BlockTest))
unmarshalled remote m (got body) = with_api m (remote.unmarshal body)
unmarshalled remote m (refused e) = refused e

-- `fetchBlockListFromNeuron`: a 404 is an empty remote list, even with an error beside it.
unfoldable pub fetch_from_neuron :
    Remote → String → Dict (List BlockTest) → Reply (Dict (List BlockTest))
fetch_from_neuron remote branch m =
    let (status, answer) = remote.request branch in
    if status == 404 then got m else unmarshalled remote m answer

abbrev written : Option Err → Dict (List BlockTest) → Service
written none m = record { entities = none; done = true; err_chan = none }
written (some e) m = record { entities = some m; done = true; err_chan = some e }

abbrev fetched : Remote → Dict (List BlockTest) → Reply (Dict (List BlockTest)) → Service
fetched remote before (got m) = written (remote.write_file m) m
fetched remote before (refused e) = record {
  entities = some before;
  done = true;
  err_chan = some e;
}

abbrev entities_of : Option (Dict (List BlockTest)) → Dict (List BlockTest)
entities_of none = []
entities_of (some m) = m

-- The function that `once` runs.
unfoldable pub run_once : Remote → List String → String → Service → Service
run_once remote yaml branch s =
    let m = populate "yml" (entities_of s.entities) (map of_yaml yaml) in
    fetched remote m (fetch_from_neuron remote branch m)

-- The receive of `GetBlockTests`, which takes an error out of the channel if there is one.
abbrev receive : Service → Service × Option Err
receive s = (record s { err_chan = none }, s.err_chan)

unfoldable pub get_block_tests : Remote → List String → String → Service → Service × Option Err
get_block_tests remote yaml branch s = receive (if s.done then s else run_once remote yaml branch s)
