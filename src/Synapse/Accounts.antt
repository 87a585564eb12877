-- ===== src/Synapse/Accounts.antt =====
-- What synapse writes against the tasks that it received, pkg/synapse/synapse.go.
use test_at_scale.Prelude.{
  ℕ, suc, ◌+◌, String, Bool, true, false, ◌∙◌, if◌then◌else◌, ◌≡◌, refl, Option, none, some, List,
  [], ◌∷◌, ◌++◌, length, length-append, arith, str_eq, Bool-cases, inl, inr, Option-cases, is_some,
}
use test_at_scale.Models.{RunnerOptions, ContainerStatus, tier_opts, nucleus_pod}
use test_at_scale.Runner.Host.{get_specs}
use test_at_scale.Synapse.{
  Json, Message, MessageType, job_info, resource_stats, StatType, resource_release,
  resource_capture, ResourceStats, Synapse, process_task, process_abort_build, update_job_status,
  create_job_update_message, create_resource_stats_message, write_message_to_buffer, get_resources,
  job_started, create_job_info, message_of, is_aborted, label,
}
use test_at_scale.Synapse.Traces.{
  Process, task_received, abort_received, container_ended, Steps, done, step,
  update_job_status-sent, end_messages, end_status,
}

abbrev pub is_release : StatType → Bool
is_release resource_release = true
is_release resource_capture = false

-- What tells of the content of a resource message whether it releases resources: it reads the status back
-- that JSON encoded.
abbrev pub IsReading : Json → (String → Bool) → Type 0
IsReading json says_release =
    (stats : ResourceStats) (text : String)
    → json.encode_resource_stats stats ≡ some text
    → says_release text ≡ is_release stats.status

abbrev releases_by : (String → Bool) → MessageType → String → ℕ
releases_by says_release resource_stats content = if says_release content then 1 else 0
releases_by says_release t content = 0

-- The number of messages in a list that release resources.
abbrev pub releases : (String → Bool) → List Message → ℕ
releases says_release [] = 0
releases says_release (m ∷ ms) =
    releases_by says_release m.type m.content + releases says_release ms

-- The number of tasks that the steps receive.
abbrev pub tasks : {json : Json} {p q : Process} → Steps json p q → ℕ
tasks done = 0
tasks (step (task_received msg m e) rest) = suc (tasks rest)
tasks (step (abort_received msg m e) rest) = tasks rest
tasks (step (container_ended before after r status) rest) = tasks rest

releases-append :
    (says : String → Bool) (xs ys : List Message)
    → releases says (xs ++ ys) ≡ releases says xs + releases says ys
releases-append says [] ys = omega arith
releases-append says (x ∷ xs) ys = omega (arith, releases-append says xs ys)

-- The sum that a step keeps, but for a task received.
abbrev pub account : (String → Bool) → Process → ℕ
account says_release p = releases says_release p.synapse.sent + length p.active

-- Every resource message can be encoded.
abbrev pub IsEncoding : Json → Type 0
IsEncoding json = (stats : ResourceStats) → is_some (json.encode_resource_stats stats) ≡ true

module _ (json : Json) (says : String → Bool) (reads : IsReading json says) where
  job_update_is_none :
      (o : Option String)
      → releases_by says (message_of job_info o).type (message_of job_info o).content ≡ 0
  job_update_is_none none = refl
  job_update_is_none (some text) = refl

  release_is_one :
      (stats : ResourceStats) (o : Option String)
      → json.encode_resource_stats stats ≡ o
      → is_some o ≡ true
      → is_release stats.status ≡ true
      → releases_by says (message_of resource_stats o).type (message_of resource_stats o).content
        ≡ 1
  release_is_one stats none encoded h release = cc
  release_is_one stats (some text) encoded h release = rw (reads stats text encoded ∙ release) refl

  releases-task :
      (m : Message) (s : Synapse)
      → releases says (process_task json m s).1.sent ≡ releases says s.sent
  unfolding process_task write_message_to_buffer create_job_update_message
  releases-task m s =
      let r = json.decode_runner_options m.content in
      elim (Bool-cases (str_eq r.pod_type nucleus_pod)) [
        | inr other ↦ rw other refl
        | inl nucleus ↦
            let text = json.encode_job_info (create_job_info job_started r "") in
            rw
              (
                nucleus,
                releases-append says s.sent (message_of job_info text ∷ []),
                job_update_is_none text,
              )
              (omega arith)
      ]

  releases-end :
      (r : RunnerOptions) (status : ContainerStatus) (s : Synapse)
      → IsEncoding json
      → releases says (update_job_status json r status s).sent ≡ suc (releases says s.sent)
  unfolding create_job_update_message create_resource_stats_message
  releases-end r status s enc =
      let job_status = end_status (is_aborted s.build_abort_map (label "build-id" r)) status.done in
      let stats : ResourceStats = record {
        status = resource_release;
        resources = get_resources r.tier;
      } in
      rw
        (
          (update_job_status-sent json r status s).0,
          releases-append says s.sent (end_messages json job_status r status),
          release_is_one stats (json.encode_resource_stats stats) refl (enc stats) refl,
          job_update_is_none
              (json.encode_job_info (create_job_info job_status r status.error.message)),
        )
        (omega arith)

  -- From any state on, in whatever order tasks, aborts and ends of containers come, the messages written
  -- that release resources and the tasks still active are together as many as before, plus one for each
  -- task received since, provided that JSON encodes every resource message, and that its status can be
  -- read back from the content.
  pub releases_balance :
      (p q : Process) (steps : Steps json p q)
      → IsEncoding json
      → account says q ≡ account says p + tasks steps
  unfolding process_abort_build
  releases_balance p q done enc = omega arith
  releases_balance p q (step {q = next} (task_received {s = s} {active = active} msg m e) rest)
        enc =
      omega (arith, releases_balance next q rest enc, releases-task m s)
  releases_balance p q (step {q = next} (abort_received msg m e) rest) enc =
      releases_balance next q rest enc
  releases_balance p q (step {q = next} (container_ended {s = s} before after r status) rest) enc =
      omega (
        arith,
        releases_balance next q rest enc,
        releases-end r status s enc,
        length-append before (r ∷ after),
        length-append before after,
      )

-- For every tier that is known, what synapse reports as released is what the docker runner gave the
-- container.
get_resources-get_specs :
    (tier : String) → is_some (tier_opts tier) ≡ true → get_resources tier ≡ get_specs tier
unfolding get_resources get_specs
get_resources-get_specs tier h = elim (Option-cases (tier_opts tier)) [
  | inl absent ↦ absurd (ground (arith, absent))
  | inr (s, known) ↦ rw known refl
]
