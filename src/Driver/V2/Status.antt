-- ===== src/Driver/V2/Status.antt =====
-- The status of a task after a discovery of pkg/driver/driver_v2.go.
use test_at_scale.Prelude.{
  String, ◌≡◌, refl, ◌∙◌, Bool, true, not, Option, none, some, List, [], ◌∷◌, Dict, ℕ, str_eq,
  length, if◌then◌else◌,
}
use test_at_scale.Errs.{Result, ok, err, panicked}
use test_at_scale.Models.{
  Payload, TasConfigV2, MergeV2, SubModule, Oauth, Run, DiscoveyArgs, pos, passed, event_push,
}
use test_at_scale.Driver.Actions.{
  World, Outside, ◌>>=◌, lift, load, skip, discover_tests, send_sub_modules, install_node_version,
  cache_work, download_and_diff, upload_cache, set_status,
}
use test_at_scale.Driver.Keeps.{Keeps, if-Keeps, >>=-Keeps, task_of}
use test_at_scale.Driver.Becomes.{
  Becomes, >>=-Becomes, >>=-Becomes_done, Keeps-Becomes, >>=-Becomes_first,
}
use test_at_scale.Driver.V1.{key_of, paths_of}
use test_at_scale.Driver.V2.{
  discover_sub_module, discovery_entry, discovery_entries, run_discovery_helper, run_discovery_v2,
  Schedule, first_entry, run_pre_run_command, build_discovery_args_v2, set_up_discovery,
  set_cache_v2, as_v2, the_merge, entered, run_module_pre_run, run_top_pre_run,
}
use test_at_scale.Driver.V2.Phases.{IsApart, run_pre_run_command-Becomes}

run_module_pre_run-task :
    (o : Outside) (m : SubModule) (secrets : Dict String) (run : Option Run)
    → Keeps task_of (run_module_pre_run o m secrets run)
run_module_pre_run-task o m secrets none w = refl
run_module_pre_run-task o m secrets (some run) w = refl

run_top_pre_run-task :
    (o : Outside) (secrets : Dict String) (run : Option Run)
    → Keeps task_of (run_top_pre_run o secrets run)
run_top_pre_run-task o secrets none w = refl
run_top_pre_run-task o secrets (some run) w = refl

task_of-IsApart : IsApart task_of
task_of-IsApart = record {
  blocked = λ o yaml branch w. refl;
  noted = run_module_pre_run-task;
  noted_top = run_top_pre_run-task;
  installed = λ o cwd w. refl;
}

entered-task {ℓ} : {A : Type ℓ} (r : World × Result A) → (entered r).0.task ≡ r.0.task
entered-task (w, ok a) = refl
entered-task (w, err e) = refl
entered-task (w, panicked) = refl

discovery_entry-task :
    (o : Outside) (config : TasConfigV2) (m : SubModule) (args : DiscoveyArgs)
    → Keeps task_of (discovery_entry o config m args)
unfolding discover_sub_module
discovery_entry-task o config m args w =
    entered-task (discover_sub_module o config m args w)
    ∙ >>=-Keeps task_of (discover_tests o args) _ (λ w. refl) (λ result w. refl) w

discovery_entries-task :
    (o : Outside) (p : Payload) (secrets : Dict String) (found : Bool) (diff : Dict ℕ)
    (config : TasConfigV2)
    → (ms : List SubModule) → Keeps task_of (discovery_entries o p secrets found diff config ms)
unfolding discovery_entries
discovery_entries-task o p secrets found diff config [] w = refl
discovery_entries-task o p secrets found diff config (m ∷ ms) w =
    >>=-Keeps task_of (lift (build_discovery_args_v2 o p config m secrets found diff)) _ (λ w. refl)
      (λ built.
        >>=-Keeps task_of (discovery_entry o built.0 m built.1) _
          (discovery_entry-task o built.0 m built.1)
          (λ e.
            >>=-Keeps task_of (discovery_entries o p secrets found diff built.0 ms) _
              (discovery_entries-task o p secrets found diff built.0 ms) (λ es w. refl)))
      w

run_discovery_helper-task :
    (o : Outside) (s : Schedule) (p : Payload) (merge : MergeV2) (config : TasConfigV2)
    (found : Bool)
    → (diff : Dict ℕ) (secrets : Dict String)
    → Becomes task_of (λ t. t) (run_discovery_helper o s p merge config found diff secrets)
unfolding run_discovery_helper
run_discovery_helper-task o s p merge config found diff secrets =
    >>=-Becomes task_of (λ t. t) (send_sub_modules o p (length merge.sub_modules)) _ (λ w. refl)
      (λ u.
        >>=-Becomes task_of (λ t. t)
          (if not (str_eq config.node_version "")
            then install_node_version o config.node_version
            else skip)
          _
          (if-Keeps task_of _ (install_node_version o config.node_version) skip (λ w. refl)
            (λ w. refl))
          (λ u.
            >>=-Becomes_done task_of (λ t. t)
              (run_pre_run_command o s p merge.pre_run secrets merge.sub_modules) _
              (run_pre_run_command-Becomes task_of task_of-IsApart o s p merge.pre_run secrets
                merge.sub_modules)
              (λ u.
                >>=-Becomes task_of (λ t. t) (cache_work o) _ (λ w. refl)
                  (λ u.
                    >>=-Becomes task_of (λ t. t)
                      (discovery_entries o p secrets found diff config
                        (s.discoveries merge.sub_modules))
                      _
                      (discovery_entries-task o p secrets found diff config
                        (s.discoveries merge.sub_modules))
                      (λ es. Keeps-Becomes task_of (lift (first_entry es)) (λ w. refl))))))

set_up_discovery-task :
    (o : Outside) (p : Payload) (given : TasConfigV2) (oauth : Oauth)
    → Keeps task_of (set_up_discovery o p given oauth)
unfolding set_up_discovery
set_up_discovery-task o p given oauth =
    >>=-Keeps task_of (lift (set_cache_v2 o given)) _ (λ w. refl)
      (λ config.
        >>=-Keeps task_of (download_and_diff o true (key_of config.cache) p oauth) _ (λ w. refl)
          (λ found w. refl))

the_rest-task :
    (o : Outside) (s : Schedule) (p : Payload) (oauth : Oauth) (secrets : Dict String)
    (ready : TasConfigV2 × Bool × Dict ℕ)
    → (merge : MergeV2)
    → Becomes task_of
        (λ t. t)
        (run_discovery_helper o s p merge ready.0 ready.1 ready.2 secrets >>= λ u.
          upload_cache o (key_of ready.0.cache) (paths_of ready.0.cache) >>= λ logged. skip)
the_rest-task o s p oauth secrets ready merge =
    >>=-Becomes_done task_of (λ t. t)
      (run_discovery_helper o s p merge ready.0 ready.1 ready.2 secrets) _
      (run_discovery_helper-task o s p merge ready.0 ready.1 ready.2 secrets)
      (λ u.
        >>=-Becomes task_of (λ t. t)
          (upload_cache o (key_of ready.0.cache) (paths_of ready.0.cache)) _ (λ w. refl)
          (λ logged. Keeps-Becomes task_of skip (λ w. refl)))

pub run_discovery_v2-passed :
    (o : Outside) (s : Schedule) (p : Payload) (oauth : Oauth) (secrets : Dict String)
    → Becomes task_of (λ t. record t { status = passed }) (run_discovery_v2 o s p oauth secrets)
unfolding run_discovery_v2
run_discovery_v2-passed o s p oauth secrets =
    >>=-Becomes task_of (λ t. record t { status = passed }) (load o (pos 2) p) _ (λ w. refl)
      (λ tas.
        >>=-Becomes task_of (λ t. record t { status = passed }) (lift (as_v2 tas)) _ (λ w. refl)
          (λ given.
            >>=-Becomes_first task_of (λ t. record t { status = passed }) (set_status passed) _
              (λ w. refl)
              (λ u.
                >>=-Becomes task_of (λ t. t) (set_up_discovery o p given oauth) _
                  (set_up_discovery-task o p given oauth)
                  (λ ready.
                    >>=-Becomes task_of (λ t. t)
                      (lift (
                        the_merge (
                          if str_eq p.event_type event_push
                          then ready.0.post_merge
                          else ready.0.pre_merge)))
                      _ (λ w. refl) (λ merge. the_rest-task o s p oauth secrets ready merge)))))
