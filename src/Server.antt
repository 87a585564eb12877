-- ===== src/Server.antt =====
-- pkg/api and pkg/service/teststats/teststats.go: the server to which the test runners post their results
-- and their lists of tests, and the channels on which its goroutines wait until a service receives.
-- JSON is a parameter. The two types of the channels, `R` and `D`, are those of the results and of
-- the discovered tests.
pub mod Channels
pub mod Proxy
pub mod Tests
use test_at_scale.Prelude.{
  ℕ, String, Bool, ◌&&◌, Option, none, some, List, [], ◌∷◌, ◌++◌, str_eq, if◌then◌else◌,
}
use test_at_scale.Errs.{Err, message, Reply, got, refused}

pub record Response : Type 0 where
  pub status : ℕ
  pub body : String

-- The values that goroutines wait to send on an unbuffered channel, and those that were received.
pub record Channel (A : Type 0) : Type 0 where
  pub waiting : List A
  pub received : List A

pub record Server (R D : Type 0) : Type 0 where
  pub results : Channel R
  pub discoveries : Channel D

-- The decoding of the two bodies, and the encoding of an error as the message of an answer.
pub record Binding (R D : Type 0) : Type 0 where
  pub results_of : String → Reply R
  pub discovery_of : String → Reply D
  pub message_body : String → String

abbrev pub ok_response : Response
ok_response = record { status = 200; body = "OK" }

abbrev pub bad_request : (String → String) → Err → Response
bad_request encode e = record { status = 400; body = encode (message e) }

-- A handler: a goroutine waits with what was decoded.
unfoldable pub post : {A : Type 0} → (String → String) → Reply A → Channel A → Channel A × Response
post encode (refused e) c = (c, bad_request encode e)
post encode (got request) c = (record c { waiting = c.waiting ++ request ∷ [] }, ok_response)

pub data Route : Type 0 where
  health results_route test_list_route unknown : Route

-- `Router.Handler`
unfoldable pub route : String → String → Route
route method path =
    if str_eq method "GET" && str_eq path "/health"
    then health
    else if str_eq method "POST" && str_eq path "/results"
    then results_route
    else if str_eq method "POST" && str_eq path "/test-list"
    then test_list_route
    else unknown

-- gin's answer where no route fits.
abbrev pub not_found_response : Response
not_found_response = record { status = 404; body = "404 page not found" }

module _ {R D : Type 0} where
  -- `results.Handler` and `testlist.Handler`
  unfoldable pub results_handler : Binding R D → String → Channel R → Channel R × Response
  unfolding post
  results_handler b body c = post b.message_body (b.results_of body) c

  unfoldable pub test_list_handler : Binding R D → String → Channel D → Channel D × Response
  unfolding post
  test_list_handler b body c = post b.message_body (b.discovery_of body) c

  unfoldable pub handle_route : Binding R D → Route → String → Server R D → Server R D × Response
  unfolding results_handler test_list_handler
  handle_route b health body s = (s, ok_response)
  handle_route b unknown body s = (s, not_found_response)
  handle_route b results_route body s =
      let (c, response) = results_handler b body s.results in (record s { results = c }, response)
  handle_route b test_list_route body s =
      let (c, response) = test_list_handler b body s.discoveries in
      (record s { discoveries = c }, response)

  unfoldable pub handle :
      Binding R D → String → String → String → Server R D → Server R D × Response
  unfolding route handle_route
  handle b method path body s = handle_route b (route method path) body s
