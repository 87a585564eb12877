-- ===== src/Driver/V1/Success.antt =====
-- How the status of a task depends on the end of a discovery of pkg/driver/driver_v1.go.
use test_at_scale.Prelude.{
  String, refl, Bool, true, false, not, ◌&&◌, Option, none, some, Dict, str_eq,
}
use test_at_scale.Models.{Payload, TasConfig, Oauth, Run, pos}
use test_at_scale.Driver.Actions.{
  Outside, World, ◌>>=◌, lift, load, get_blocks, download_and_diff, upload_cache, cache_work,
  discover_tests, send_discovery, install, install_node_version, send_sub_modules, skip, checked,
  as_generic,
}
use test_at_scale.Driver.Keeps.{Keeps, >>=-Keeps, if-Keeps, task_of}
use test_at_scale.Driver.Ends.{Ended, >>=-Ended}
use test_at_scale.Driver.V1.{
  set_up, set_cache, is_js, js_key, run_discovery, run_optional, upload_for_js,
  build_discovery_args, as_v1, repo_dir, populate_discovery, paths_of,
}

download_and_diff-task :
    (o : Outside) (b : Bool) (key : String) (p : Payload) (oauth : Oauth)
    → Keeps task_of (download_and_diff o b key p oauth)
download_and_diff-task o true key p oauth w = refl
download_and_diff-task o false key p oauth w = refl

set_up-task :
    (o : Outside) (p : Payload) (config : TasConfig) (oauth : Oauth)
    → Keeps task_of (set_up o p config oauth)
unfolding set_up
set_up-task o p given oauth =
    >>=-Keeps task_of (lift (set_cache o given)) _ (λ w. refl)
      (λ config.
        >>=-Keeps task_of _ _
          (if-Keeps task_of (not (str_eq config.node_version "") && is_js config)
            (install_node_version o config.node_version) skip (λ w. refl) (λ w. refl))
          (λ u.
            >>=-Keeps task_of (get_blocks o config.blocklist p.branch_name) _ (λ w. refl)
              (λ v.
                >>=-Keeps task_of (download_and_diff o (is_js config) (js_key config) p oauth) _
                  (download_and_diff-task o (is_js config) (js_key config) p oauth)
                  (λ found w. refl))))

run_optional-task :
    (o : Outside) (kind remark : String) (run : Option Run) (secrets : Dict String)
    → Keeps task_of (run_optional o kind remark run secrets)
run_optional-task o kind remark none secrets w = refl
run_optional-task o kind remark (some run) secrets w = refl

upload_for_js-task : (o : Outside) (config : TasConfig) → Keeps task_of (upload_for_js o config)
upload_for_js-task o config =
    if-Keeps task_of (is_js config)
      (upload_cache o (js_key config) (paths_of config.cache) >>= λ e. lift (checked as_generic e))
      skip (λ w. refl) (λ w. refl)

-- Whatever the services answer, a discovery of version 1 that succeeds sets the status of the task to
-- passed and leaves its other fields, and one that ends in an error or a panic leaves the task as it
-- was.
pub run_discovery-Ended :
    (o : Outside) (p : Payload) (oauth : Oauth) (secrets : Dict String) (w : World)
    → Ended w.task (run_discovery o p oauth secrets w)
unfolding run_discovery
run_discovery-Ended o p oauth secrets =
    >>=-Ended (load o (pos 1) p) _ (λ w. refl)
      (λ tas.
        >>=-Ended (lift (as_v1 tas)) _ (λ w. refl)
          (λ given. >>=-Ended (set_up o p given oauth) _ (set_up-task o p given oauth) (λ ready.
            >>=-Ended (send_sub_modules o p 1) _ (λ w. refl)
              (λ sent.
                >>=-Ended
                  (run_optional o "prerun" "Failed in running pre-run steps" ready.0.prerun secrets)
                  _
                  (run_optional-task o "prerun" "Failed in running pre-run steps" ready.0.prerun
                    secrets)
                  (λ ran.
                    >>=-Ended (install o repo_dir) _ (λ w. refl)
                      (λ installed.
                        >>=-Ended (cache_work o) _ (λ w. refl)
                          (λ cached.
                            >>=-Ended
                              (lift (build_discovery_args p ready.0 secrets ready.1 ready.2)) _
                              (λ w. refl)
                              (λ args.
                                >>=-Ended (discover_tests o args) _ (λ w. refl)
                                  (λ result.
                                    >>=-Ended (send_discovery o (populate_discovery ready.0 result))
                                      _ (λ w. refl)
                                      (λ told.
                                        >>=-Ended (upload_for_js o ready.0) _
                                          (upload_for_js-task o ready.0) (λ kept w. refl)))))))))))
