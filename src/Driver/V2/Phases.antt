-- ===== src/Driver/V2/Phases.antt =====
-- The phases of a discovery of pkg/driver/driver_v2.go that keep a part of the state: the setting up,
-- the pre-runs and the search for what changed.
use test_at_scale.Prelude.{String, ◌≡◌, sym, ap, ◌∙◌, Option, none, some, List, [], ◌∷◌, Dict}
use test_at_scale.Errs.{Err, Result, ok, err, panicked}
use test_at_scale.Models.{Payload, SubModule, Run}
use test_at_scale.Driver.Actions.{World, Outside, Action, get_blocks, install}
use test_at_scale.Driver.Keeps.{Keeps, >>=-Keeps, >>=-done}
use test_at_scale.Driver.Becomes.{Becomes, >>=-Becomes, Keeps-Becomes, firsts_of, entered-none}
use test_at_scale.Driver.V2.{
  all_entries, first_entry, entered, marked, pre_run, pre_run_entry, run_pre_run_command,
  run_module_pre_run, run_top_pre_run, Schedule,
}

-- A view of the state that the actions of a pre-run leave as it is.
pub record IsApart {ℓ} {V : Type ℓ} (view : World → V) : Type ℓ where
  pub blocked :
      (o : Outside) (yaml : List String) (branch : String) → Keeps view (get_blocks o yaml branch)
  pub noted :
      (o : Outside) (m : SubModule) (secrets : Dict String) (run : Option Run)
      → Keeps view (run_module_pre_run o m secrets run)
  pub noted_top :
      (o : Outside) (secrets : Dict String) (run : Option Run)
      → Keeps view (run_top_pre_run o secrets run)
  pub installed : (o : Outside) (cwd : String) → Keeps view (install o cwd)

all_entries-Becomes {ℓ} :
    {V : Type ℓ} (view : World → V) (each : SubModule → Action (Option Err)) (ms : List SubModule)
    → ((m : SubModule) (w w' : World) → each m w ≡ (w', ok none) → view w' ≡ view w)
    → (w w' : World) (es : List (Option Err)) → all_entries each ms w ≡ (w', ok es)
    → first_entry es ≡ ok tt
    → view w' ≡ view w
unfolding all_entries
all_entries-Becomes view each [] step w w' es h first = sym (ap (λ r. view r.0) h)
all_entries-Becomes view each (m ∷ ms) step w w' es h first =
    let (w1, e, did, h1) = >>=-done (each m) _ h in
    let (w2, es', did', h2) = >>=-done (all_entries each ms) _ h1 in
    let (absent, firsts) = firsts_of w2 w' e es' es h2 first in
    sym (ap (λ r. view r.0) h2)
    ∙ all_entries-Becomes view each ms step w1 w2 es' did' firsts
    ∙ step m w w1 (did ∙ ap (λ e. (w1, ok e)) absent)

module _ {ℓ} {V : Type ℓ} (view : World → V) (apart : IsApart view) where
  pre_run-Keeps :
      (o : Outside) (p : Payload) (secrets : Dict String) (m : SubModule)
      → Keeps view (pre_run o p secrets m)
  unfolding pre_run
  pre_run-Keeps o p secrets m =
      >>=-Keeps view (get_blocks o m.blocklist p.branch_name) _
        (apart.blocked o m.blocklist p.branch_name)
        (λ u.
          >>=-Keeps view (run_module_pre_run o m secrets m.prerun) _
            (apart.noted o m secrets m.prerun) (λ u. apart.installed o (o.join_repo m.path)))

  marked-none :
      (r : World × Result (Option Err)) (w' : World) → marked r ≡ (w', ok none) → r ≡ (w', ok none)
  marked-none (w, ok (some e)) w' h = cc
  marked-none (w, ok none) w' h = h
  marked-none (w, err e) w' h = cc
  marked-none (w, panicked) w' h = cc

  pre_run_entry-none :
      (o : Outside) (p : Payload) (secrets : Dict String) (m : SubModule) (w w' : World)
      → pre_run_entry o p secrets m w ≡ (w', ok none)
      → view w' ≡ view w
  pre_run_entry-none o p secrets m w w' h =
      let (u, did) =
        entered-none (pre_run o p secrets m w) w'
          (marked-none (entered (pre_run o p secrets m w)) w' h) in
      Keeps-Becomes view (pre_run o p secrets m) (pre_run-Keeps o p secrets m) w w' u did

  pub run_pre_run_command-Becomes :
      (o : Outside) (s : Schedule) (p : Payload) (top : Option Run) (secrets : Dict String)
      (ms : List SubModule)
      → Becomes view (λ v. v) (run_pre_run_command o s p top secrets ms)
  unfolding run_pre_run_command
  run_pre_run_command-Becomes o s p top secrets ms =
      >>=-Becomes view (λ v. v) (run_top_pre_run o secrets top) _ (apart.noted_top o secrets top)
        (λ u w w' b h.
          let (between, es, did, last) =
            >>=-done (all_entries (pre_run_entry o p secrets) (s.pre_runs ms)) _ h in
          ap view (sym (ap (λ r. r.0) last))
          ∙ all_entries-Becomes view (pre_run_entry o p secrets) (s.pre_runs ms)
              (pre_run_entry-none o p secrets) w between es did (ap (λ r. r.1) last))
