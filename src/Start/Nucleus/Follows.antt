-- ===== src/Start/Nucleus/Follows.antt =====
-- What a nucleus that `run` of cmd/nucleus/bin.go started has of its configuration.
use test_at_scale.Prelude.{
  String, ◌≡◌, refl, sym, ap, ◌∙◌, Bool, true, false, Option, none, some, [], ◌∷◌, arith,
  if◌then◌else◌, Bool-cases, inl, inr, str_eq, ◌||◌,
}
use test_at_scale.Errs.{Err, Result, ok, err, panicked, check, ◌>>◌, >>=-eq-ok, Reply, got, refused}
use test_at_scale.Masking.{trim_space}
use test_at_scale.Azure.{
  BlobConfig, Connector, new_azure_blob_env, container_client, connected, authorized, with_account,
  account_url, local_account,
}
use test_at_scale.Files.Archive
use test_at_scale.Files.Archive.{Archiver}
use test_at_scale.Loading.{Value, Values, Settings, get_tags, zero_values}
use test_at_scale.Loading.Types.{nucleus_fields, nucleus_sources, load_nucleus_config, populate}
use test_at_scale.Loading.Merged.{merged, or_else, given_string, given_bool}
use test_at_scale.Loading.Validated.{populate_nucleus, given_or_empty, ok-inj}
use test_at_scale.Start.{log_location}
use test_at_scale.Start.Nucleus.{
  View, view, Machine, Started, neuron_remote_host, neuron_host, new_cache, new_coverage, assembled,
  with_config, start,
}

container_client-coverage :
    (o : Option Err) (found : Option String)
    → container_client o ≡ got found
    → found ≡ some "coverage"
container_client-coverage (some e) found h = cc
container_client-coverage none found h = cc

connected-coverage :
    (c : Connector) (r : Reply String) (found : Option String)
    → connected c r ≡ got found
    → found ≡ some "coverage"
connected-coverage c (refused e) found h = cc
connected-coverage c (got url) found h = container_client-coverage (c.service_client url) found h

authorized-coverage :
    (c : Connector) (cfg : BlobConfig) (o : Option Err) (found : Option String)
    → authorized c cfg o ≡ got found
    → found ≡ some "coverage"
authorized-coverage c cfg (some e) found h = cc
authorized-coverage c cfg none found h = connected-coverage c (c.parse (account_url cfg)) found h

no_reply :
    {e : Err} {found : Option String} → ◌≡◌ {A = Reply (Option String)} (refused e) (got found) → ⊥
no_reply h = cc

with_account-coverage :
    (c : Connector) (cfg : BlobConfig) (found : Option String)
    → with_account c cfg ≡ got found
    → found ≡ some "coverage"
with_account-coverage c cfg found h =
    elim (Bool-cases (str_eq cfg.storage_account_name "" || str_eq cfg.storage_access_key "")) [
      | inl missing ↦ absurd (no_reply (rw missing at h))
      | inr given ↦ authorized-coverage c cfg _ found (rw given at h)
    ]

got-inj : {A : Type 0} (a : A) {x y : A} → ◌≡◌ {A = Reply A} (got x) (got y) → x ≡ y
got-inj {A} a e = ap value_or e
  where
    value_or : Reply A → A
    value_or (got x) = x
    value_or (refused f) = a

-- The store has a container exactly in the mode that merges coverage.
new_azure_blob_env-coverage :
    (c : Connector) (cfg : BlobConfig) (found : Option String)
    → new_azure_blob_env c cfg ≡ got found
    → found ≡ (if cfg.coverage_mode then some "coverage" else none)
unfolding new_azure_blob_env
new_azure_blob_env-coverage c cfg found h = by_mode cfg.coverage_mode h
  where
    by_mode :
        (mode : Bool)
        → (if mode then with_account c (local_account cfg) else got none) ≡ got found
        → found ≡ (if mode then some "coverage" else none)
    by_mode true h' = with_account-coverage c (local_account cfg) found h'
    by_mode false h' = sym (got-inj none h')

new_coverage-mode : (mode absent there : Bool) → new_coverage mode absent ≡ ok there → there ≡ mode
unfolding new_coverage
new_coverage-mode false absent there h = sym (ok-inj there h)
new_coverage-mode true false there h = sym (ok-inj there h)
new_coverage-mode true true there h = cc

view-merged :
    (s : Settings)
    → let v = view (merged s ("" ∷ []) nucleus_fields (zero_values nucleus_fields)) in
      (v.blobs.local_runner ≡ or_else (given_bool s "local") false)
      × (v.blobs.coverage_mode ≡ or_else (given_bool s "coverage") false)
      × (v.synapse_host ≡ or_else (given_string s "synapsehost") "")
unfolding view Value zero_values merged get_tags
view-merged s = (refl, refl, refl)

abbrev pub settings_of : Machine → Settings
settings_of m = m.viper.settings (nucleus_sources m.default_log m.viper.config_flag)

loaded_as :
    (m : Machine) (cfg : Values nucleus_fields)
    → load_nucleus_config m.viper m.default_log ≡ ok cfg
    → merged (settings_of m) ("" ∷ []) nucleus_fields (zero_values nucleus_fields) ≡ cfg
unfolding load_nucleus_config
loaded_as m cfg h = by_flags m.viper.bind_flags h
  where
    by_flags :
        (o : Option Err)
        → (check o >> populate (settings_of m) nucleus_fields) ≡ ok cfg
        → merged (settings_of m) ("" ∷ []) nucleus_fields (zero_values nucleus_fields) ≡ cfg
    by_flags (some e) h' = cc
    by_flags none h' = ok-inj cfg (sym (populate_nucleus (settings_of m)) ∙ h')

given_or_false : (s : Settings) (key : String) → or_else (given_bool s key) false ≡ s.get_bool key
given_or_false s key = ground arith

-- What a started nucleus has of its configuration's view.
abbrev pub FollowsView : View → Started → Type 0
FollowsView v t =
    (t.neuron_host ≡ neuron_host v)
    × (t.container ≡ (if v.blobs.coverage_mode then some "coverage" else none))
    × (t.coverage ≡ v.blobs.coverage_mode)

assembled_parts :
    (cfg : Values nucleus_fields) (v : View) (log : String) (t : Started)
    (x : Reply (Option String)) (y : Reply Archiver) (z : Reply String) (w : Result Bool)
    → assembled cfg v log x y z w ≡ ok t
    → (t.neuron_host ≡ neuron_host v) × (x ≡ got t.container) × (w ≡ ok t.coverage)
assembled_parts cfg v log t (got c) (got a) (got d) (ok b) h =
    let same = ok-inj t h in
    (
      sym (ap (λ x. x.neuron_host) same),
      ap (λ x. got x.container) same,
      ap (λ x. ok x.coverage) same,
    )
assembled_parts cfg v log t (refused e) y z w h = cc
assembled_parts cfg v log t (got c) (refused e) z w h = cc
assembled_parts cfg v log t (got c) (got a) (refused e) w h = cc
assembled_parts cfg v log t (got c) (got a) (got d) (err e) h = cc
assembled_parts cfg v log t (got c) (got a) (got d) panicked h = cc

with_config-FollowsView :
    (m : Machine) (cfg : Values nucleus_fields) (v : View) (t : Started)
    → with_config m cfg v ≡ ok t
    → FollowsView v t
with_config-FollowsView m cfg v t h =
    let (host, made, mode) =
      assembled_parts cfg v (log_location m.join v.log_file "nucleus.log" v.file_location) t
        (new_azure_blob_env m.connector v.blobs) (Archive.new m.look_path m.manifest m.write_file)
        (new_cache m.user_home_dir) (new_coverage v.blobs.coverage_mode m.coverage_dir_absent) h in
    (
      host,
      new_azure_blob_env-coverage m.connector v.blobs t.container made,
      new_coverage-mode v.blobs.coverage_mode m.coverage_dir_absent t.coverage mode,
    )

-- Where a nucleus starts, it talks to the host that viper has under "synapsehost", without the blanks
-- around it, if viper has "local" set, and to the remote host otherwise; and its store of blobs has a
-- container, and it has a coverage service, exactly if viper has "coverage" set.
pub start-Follows :
    (m : Machine) (t : Started)
    → start m ≡ ok t
    → let s = settings_of m in
      (t.neuron_host ≡ (
        if s.get_bool "local" then trim_space (s.get_string "synapsehost") else neuron_remote_host))
      × (t.container ≡ (if s.get_bool "coverage" then some "coverage" else none))
      × (t.coverage ≡ s.get_bool "coverage")
unfolding start neuron_host
start-Follows m t h =
    let s : Settings = settings_of m in
    let (cfg, loaded, rest) =
      >>=-eq-ok (load_nucleus_config m.viper m.default_log) (λ cfg. with_config m cfg (view cfg))
        h in
    let (host, container, coverage) = with_config-FollowsView m cfg (view cfg) t rest in
    let same : view cfg ≡ view (merged s ("" ∷ []) nucleus_fields (zero_values nucleus_fields)) =
      ap view (sym (loaded_as m cfg loaded)) in
    let (local, mode, synapse) = view-merged s in
    let local' = ap (λ v. v.blobs.local_runner) same ∙ local ∙ given_or_false s "local" in
    let mode' = ap (λ v. v.blobs.coverage_mode) same ∙ mode ∙ given_or_false s "coverage" in
    let synapse' = ap (λ v. v.synapse_host) same ∙ synapse ∙ given_or_empty s "synapsehost" in
    (
      host
          ∙ ap (λ b. if b then trim_space (view cfg).synapse_host else neuron_remote_host) local'
          ∙ ap (λ x. if s.get_bool "local" then trim_space x else neuron_remote_host) synapse',
      container ∙ ap (λ b. if b then some "coverage" else none) mode',
      coverage ∙ mode',
    )
