-- ===== src/Server/Tests.antt =====
-- One result and one list of tests, and a body that is refused.
use test_at_scale.Prelude.{String, ◌≡◌, refl, [], ◌∷◌, str_eq, if◌then◌else◌}
use test_at_scale.Errs.{error, got, refused}
use test_at_scale.Server.{Server, Binding, handle, route, bad_request}
use test_at_scale.Server.Channels.{
  Step, Steps, requested, takes_results, done, then_, Gains, Steps-Gains,
}
use test_at_scale.Server.Proxy.{director}

abbrev binding : Binding String String
binding = record {
  results_of = λ body. if str_eq body "" then refused (error "EOF") else got body;
  discovery_of = λ body. got body;
  message_body = λ text. text;
}

abbrev fresh : Server String String
fresh = record {
  results = record { waiting = []; received = [] };
  discoveries = record { waiting = []; received = [] };
}

abbrev answered : Server String String
answered = record {
  results = record { waiting = []; received = "r" ∷ [] };
  discoveries = record { waiting = []; received = [] };
}

empty_body_is_refused :
    (handle binding "POST" "/results" "" fresh).1 ≡ bad_request (λ t. t) (error "EOF")
unfolding handle
empty_body_is_refused = refl

posted :
    Step binding fresh
      ("r" ∷ [])
      []
      (record fresh { results = record { waiting = "r" ∷ []; received = [] } })
unfolding handle route
posted = requested "POST" "/results" "r"

two_steps : Steps binding fresh ("r" ∷ []) [] answered
two_steps = then_ posted (then_ (takes_results [] [] "r") done)

secret_key_is_added :
    director
      (record { scheme = "https"; host = "cloud" })
      (λ key. key)
      "k"
      (record {
        scheme = "http";
        host = "synapse";
        url_host = "synapse";
        path = "/task";
        headers = [];
      })
    ≡ record {
      scheme = "https";
      host = "cloud";
      url_host = "cloud";
      path = "/synapse/task";
      headers = ("Lambdatest-SecretKey", "k") ∷ [];
    }
unfolding director
secret_key_is_added = refl

Steps-Gains_example :
    Gains fresh.results ("r" ∷ []) answered.results
    × Gains fresh.discoveries [] answered.discoveries
Steps-Gains_example = Steps-Gains two_steps
