-- ===== src/Requests/Tests.antt =====
-- A request that is answered at the second attempt.
use test_at_scale.Prelude.{ℕ, ◌≡◌, ◌↔◌, refl, [], ◌==◌, if◌then◌else◌}
use test_at_scale.Errs.{got}
use test_at_scale.Requests.{Web, retry, make_api_request}
use test_at_scale.Requests.Retry.{Settles, accepted, make_api_request-Settles}

abbrev pub web : Web
web = record {
  environment = λ name. name;
  neuron_host = "http://neuron";
  prepare = λ endpoint query. got endpoint;
  send = λ request i.
      if i == 0
      then got (record { status = 503; body = got "" })
      else got (record { status = 200; body = got "{}" });
  tries = 3;
}

answers : make_api_request web "GET" "http://neuron/task" "" [] [] ≡ got (200, "{}")
unfolding make_api_request retry
answers = refl

make_api_request-Settles_example :
    (make_api_request web "GET" "http://neuron/task" "" [] [] ≡ got (200, "{}")) ↔ (
      (◌≡◌ {A = ℕ} 200 200)
      × Settles
          (web.send
            (record { method = "GET"; url = "http://neuron/task"; payload = ""; headers = [] }))
          3
          0
          (accepted "{}"))
make_api_request-Settles_example =
    make_api_request-Settles web "GET" "http://neuron/task" "" "http://neuron/task" [] [] 200 "{}"
      refl
