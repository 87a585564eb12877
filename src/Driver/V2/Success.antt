-- ===== src/Driver/V2/Success.antt =====
-- What a discovery of pkg/driver/driver_v2.go that succeeds has reported.
use test_at_scale.Prelude.{
  String, ◌≡◌, refl, sym, ap, ◌∙◌, Bool, not, Option, none, some, List, [], ◌∷◌, ◌++◌, map, Dict, ℕ,
  str_eq, length, if◌then◌else◌,
}
use mathlib.Core.List.{append_assoc, append-nil}
use test_at_scale.Errs.{Err, Result, ok}
use test_at_scale.Models.{Payload, TasConfigV2, MergeV2, SubModule, Run, DiscoveyArgs}
use test_at_scale.Driver.Actions.{
  World, Outside, Call, listed, sent, lift, skip, call_then, discover_tests, send_sub_modules,
  install_node_version, cache_work, checked, as_generic,
}
use test_at_scale.Driver.Keeps.{Keeps, if-Keeps, >>=-done}
use test_at_scale.Driver.Becomes.{Becomes, >>=-Becomes, >>=-Becomes_done, firsts_of, entered-none}
use test_at_scale.Driver.V1.{repo_dir}
use test_at_scale.Driver.V2.{
  discover_sub_module, discovery_entry, discovery_entries, run_discovery_helper, populate_v2,
  Schedule, first_entry, run_pre_run_command, build_discovery_args_v2, run_module_pre_run,
  run_top_pre_run,
}
use test_at_scale.Driver.V2.Phases.{IsApart, run_pre_run_command-Becomes}

-- The submodules that results were sent for.
abbrev pub sent_names : List Call → List String
sent_names [] = []
sent_names (sent r ∷ calls) = r.sub_module ∷ sent_names calls
sent_names (c ∷ calls) = sent_names calls

abbrev pub names_of : World → List String
names_of w = sent_names w.calls

sent_names-++ : (cs ds : List Call) → sent_names (cs ++ ds) ≡ sent_names cs ++ sent_names ds
sent_names-++ [] ds = refl
sent_names-++ (sent r ∷ cs) ds = ap (λ ns. r.sub_module ∷ ns) (sent_names-++ cs ds)
sent_names-++ (Call.listed l ∷ cs) ds = sent_names-++ cs ds
sent_names-++ (Call.node_installed v ∷ cs) ds = sent_names-++ cs ds
sent_names-++ (Call.ran k r d ∷ cs) ds = sent_names-++ cs ds
sent_names-++ (Call.runners_installed d ∷ cs) ds = sent_names-++ cs ds
sent_names-++ (Call.workspace_cached ∷ cs) ds = sent_names-++ cs ds
sent_names-++ (Call.discovered a ∷ cs) ds = sent_names-++ cs ds
sent_names-++ (Call.executed a ∷ cs) ds = sent_names-++ cs ds
sent_names-++ (Call.reported a ∷ cs) ds = sent_names-++ cs ds

-- A call that sends no result.
silent :
    (c : Call) (r : Result (Unit {0})) → sent_names (c ∷ []) ≡ [] → Keeps names_of (call_then c r)
silent c r empty w =
    sent_names-++ w.calls (c ∷ []) ∙ ap (λ ns. names_of w ++ ns) empty ∙ append-nil (names_of w)

run_module_pre_run-names :
    (o : Outside) (m : SubModule) (secrets : Dict String) (run : Option Run)
    → Keeps names_of (run_module_pre_run o m secrets run)
run_module_pre_run-names o m secrets none w = refl
run_module_pre_run-names o m secrets (some run) w =
    silent (Call.ran "prerun" run (o.join_repo m.path)) (ok tt) refl w

run_top_pre_run-names :
    (o : Outside) (secrets : Dict String) (run : Option Run)
    → Keeps names_of (run_top_pre_run o secrets run)
run_top_pre_run-names o secrets none w = refl
run_top_pre_run-names o secrets (some run) w =
    silent (Call.ran "prerun" run repo_dir) (ok tt) refl w

names_of-IsApart : IsApart names_of
names_of-IsApart = record {
  blocked = λ o yaml branch w. refl;
  noted = run_module_pre_run-names;
  noted_top = run_top_pre_run-names;
  installed = λ o cwd.
      silent (Call.runners_installed cwd) (checked as_generic (o.install_runners cwd)) refl;
}

-- A submodule's discovery that succeeds has sent one result, with the name of the submodule.
discover_sub_module-names :
    (o : Outside) (config : TasConfigV2) (m : SubModule) (args : DiscoveyArgs)
    → Becomes names_of (λ ns. ns ++ m.name ∷ []) (discover_sub_module o config m args)
unfolding discover_sub_module
discover_sub_module-names o config m args =
    >>=-Becomes names_of (λ ns. ns ++ m.name ∷ []) (discover_tests o args) _
      (silent (Call.discovered args) (ok tt) refl)
      (λ result w w' b h.
        ap names_of (sym (ap (λ r. r.0) h))
        ∙ sent_names-++ w.calls (sent (populate_v2 config m result) ∷ []))

discovery_entries-names :
    (o : Outside) (p : Payload) (secrets : Dict String) (found : Bool) (diff : Dict ℕ)
    (config : TasConfigV2)
    → (ms : List SubModule) (w w' : World) (es : List (Option Err))
    → discovery_entries o p secrets found diff config ms w ≡ (w', ok es)
    → first_entry es ≡ ok tt
    → names_of w' ≡ names_of w ++ map (λ m. m.name) ms
unfolding discovery_entries
discovery_entries-names o p secrets found diff config [] w w' es h first =
    sym (ap (λ r. names_of r.0) h) ∙ sym (append-nil (names_of w))
discovery_entries-names o p secrets found diff config (m ∷ ms) w w' es h first =
    let (w1, built, did, h1) =
      >>=-done (lift (build_discovery_args_v2 o p config m secrets found diff)) _ h in
    let (w2, e, did2, h2) = >>=-done (discovery_entry o built.0 m built.1) _ h1 in
    let (w3, es', did3, h3) = >>=-done (discovery_entries o p secrets found diff built.0 ms) _ h2 in
    let (absent, firsts) = firsts_of w3 w' e es' es h3 first in
    let (u, sent_one) =
      entered-none (discover_sub_module o built.0 m built.1 w1) w2
        (did2 ∙ ap (λ e. (w2, ok e)) absent) in
    sym (ap (λ r. names_of r.0) h3)
    ∙ discovery_entries-names o p secrets found diff built.0 ms w2 w3 es' did3 firsts
    ∙ ap (λ ns. ns ++ map (λ m. m.name) ms)
        (discover_sub_module-names o built.0 m built.1 w1 w2 u sent_one
          ∙ ap (λ w. names_of w ++ m.name ∷ []) (sym (ap (λ r. r.0) did)))
    ∙ append_assoc (names_of w) (m.name ∷ []) (map (λ m. m.name) ms)

-- In whatever order the goroutines run, when the discovery of a merge section succeeds, the results
-- that it sent are one for each submodule that the schedule started, with that submodule's name, in the
-- order of the schedule, and no others.
pub run_discovery_helper-names :
    (o : Outside) (s : Schedule) (p : Payload) (merge : MergeV2) (config : TasConfigV2)
    (found : Bool)
    → (diff : Dict ℕ) (secrets : Dict String) (w w' : World)
    → run_discovery_helper o s p merge config found diff secrets w ≡ (w', ok tt)
    → sent_names w'.calls
      ≡ sent_names w.calls ++ map (λ m. m.name) (s.discoveries merge.sub_modules)
unfolding run_discovery_helper
run_discovery_helper-names o s p merge config found diff secrets w w' h =
    >>=-Becomes names_of (λ ns. ns ++ map (λ m. m.name) (s.discoveries merge.sub_modules))
      (send_sub_modules o p (length merge.sub_modules)) _
      (silent
        (listed (record { build_id = p.build_id; total_sub_module = length merge.sub_modules }))
        (ok tt) refl)
      (λ u.
        >>=-Becomes names_of (λ ns. ns ++ map (λ m. m.name) (s.discoveries merge.sub_modules))
          (if not (str_eq config.node_version "")
            then install_node_version o config.node_version
            else skip)
          _
          (if-Keeps names_of _ (install_node_version o config.node_version) skip
            (silent (Call.node_installed config.node_version) (ok tt) refl) (λ w. refl))
          (λ u.
            >>=-Becomes_done names_of
              (λ ns. ns ++ map (λ m. m.name) (s.discoveries merge.sub_modules))
              (run_pre_run_command o s p merge.pre_run secrets merge.sub_modules) _
              (run_pre_run_command-Becomes names_of names_of-IsApart o s p merge.pre_run secrets
                merge.sub_modules)
              (λ u.
                >>=-Becomes names_of
                  (λ ns. ns ++ map (λ m. m.name) (s.discoveries merge.sub_modules)) (cache_work o) _
                  (silent Call.workspace_cached (ok tt) refl)
                  (λ u w w' b h.
                    let (between, es, did, last) =
                      >>=-done
                        (discovery_entries o p secrets found diff config
                          (s.discoveries merge.sub_modules))
                        _ h in
                    ap names_of (sym (ap (λ r. r.0) last))
                    ∙ discovery_entries-names o p secrets found diff config
                        (s.discoveries merge.sub_modules) w between es did (ap (λ r. r.1) last)))))
      w w' tt h
