-- ===== src/Secrets/Handed.antt =====
-- What a container gets of the configuration of synapse: pkg/secrets/secrets.go writes the token that
-- pkg/secret/secret.go reads, and decides which image pkg/runner/docker/docker.go may pull.
use test_at_scale.Prelude.{
  ℕ, String, Option, none, some, lookup, ◌≡◌, ◌≢◌, ◌↔◌, ◌⊎◌, inl, inr, refl, sym, ◌∙◌, Bool, true,
  false, not, ◌||◌, Dict, str_eq, eq_iff, if◌then◌else◌, Bool-cases,
}
use test_at_scale.Errs.{cr_auth_nf, Err, coded, Reply, got, refused}
use test_at_scale.Models.{Oauth, RunnerOptions, ContainerImageConfig, nucleus_pod}
use test_at_scale.Secrets.{SynapseConfig, get_docker_secrets, image_config, public_mode, pull_never}

-- A field of a struct after decoding an object: the value under the tag of the field, if there is one.
abbrev pub set_from {ℓ} : {A : Type ℓ} → Option String → (String → A) → A → A
set_from none read old = old
set_from (some text) read old = read text

-- `json.Unmarshal` of what `json.Marshal` made of any map sets each field of an `Oauth` from the entry of
-- the map that its tag names, and leaves the others as they are.
abbrev pub Decodes :
    (Dict String → Reply String) → (Oauth → String → Reply Oauth) → (String → ℕ) → Type 0
Decodes marshal decode time_of =
    (m : Dict String) (body : String) (o : Oauth)
    → marshal m ≡ got body
    → decode o body
      ≡ got (record {
        access_token = set_from (lookup "access_token" m) (λ s. s) o.access_token;
        expiry = set_from (lookup "expiry" m) time_of o.expiry;
        refresh_token = set_from (lookup "refresh_token" m) (λ s. s) o.refresh_token;
        type = set_from (lookup "token_type" m) (λ s. s) o.type;
      })

refuses_pull :
    (pod public never user pass : Bool) (e : Err) (c x : ContainerImageConfig)
    → ((if not pod
          then got c
          else if public || never
          then got c
          else if user || pass
          then refused e
          else got x)
        ≡ refused e)
      ↔ ((pod ≡ true) × (public ≡ false) × (never ≡ false) × ((user ≡ true) ⊎ (pass ≡ true)))
refuses_pull false public never user pass e c x = (λ h. cc, λ h. cc)
refuses_pull true true never user pass e c x = (λ h. cc, λ h. cc)
refuses_pull true false true user pass e c x = (λ h. cc, λ h. cc)
refuses_pull true false false true pass e c x = (λ h. (refl, refl, refl, inl refl), λ h. refl)
refuses_pull true false false false true e c x = (λ h. (refl, refl, refl, inr refl), λ h. refl)
refuses_pull true false false false false e c x =
    (λ h. cc, λ h. elim h.3 [ inl a ↦ cc | inr b ↦ cc ])

differs : (s t : String) → (str_eq s t ≡ false) ↔ (s ≢ t)
differs s t = (
  λ h e. let impossible : false ≡ true = sym h ∙ (eq_iff s t).1 e in cc,
  λ ne. elim (Bool-cases (str_eq s t)) [
    | inl same ↦ absurd (ne ((eq_iff s t).0 same))
    | inr other ↦ other
  ],
)

either : {A B C D : Type 0} → (A → C) → (B → D) → A ⊎ B → C ⊎ D
either f g (inl a) = inl (f a)
either f g (inr b) = inr (g b)

-- The image of a container is refused for want of credentials exactly if a nucleus container is to be
-- pulled from a registry that is not public, with a policy other than never, and the
-- configuration has no user name or no password.
get_docker_secrets-refused :
    (encoded_auth : String → String → String) (cfg : SynapseConfig) (r : RunnerOptions)
    → (get_docker_secrets encoded_auth cfg r ≡ refused (coded cr_auth_nf)) ↔ (
        (r.pod_type ≡ nucleus_pod)
        × (cfg.container_registry.mode ≢ public_mode)
        × (cfg.container_registry.pull_policy ≢ pull_never)
        × ((cfg.container_registry.username ≡ "") ⊎ (cfg.container_registry.password ≡ "")))
unfolding get_docker_secrets
get_docker_secrets-refused encoded_auth cfg r =
    let registry = cfg.container_registry in
    let cases =
      refuses_pull (str_eq r.pod_type nucleus_pod) (str_eq registry.mode public_mode)
        (str_eq registry.pull_policy pull_never) (str_eq registry.username "")
        (str_eq registry.password "") (coded cr_auth_nf) (image_config cfg r)
        (record (image_config cfg r) {
          auth_registry = encoded_auth registry.username registry.password;
        }) in
    (
      λ h.
          let (pod, public, never, empty) = cases.0 h in
          (
            (eq_iff r.pod_type nucleus_pod).0 pod,
            (differs registry.mode public_mode).0 public,
            (differs registry.pull_policy pull_never).0 never,
            either (eq_iff registry.username "").0 (eq_iff registry.password "").0 empty,
          ),
      λ h. cases.1 (
        (eq_iff r.pod_type nucleus_pod).1 h.0,
        (differs registry.mode public_mode).1 h.1,
        (differs registry.pull_policy pull_never).1 h.2,
        either (eq_iff registry.username "").1 (eq_iff registry.password "").1 h.3,
      ),
    )
