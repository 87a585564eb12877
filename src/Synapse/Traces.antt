-- ===== src/Synapse/Traces.antt =====
-- The handlers of pkg/synapse/synapse.go run as goroutines. A step is one received message up to the
-- start of its container, or the end of a container; steps of different tasks come in any order.
use test_at_scale.Prelude.{
  String, Bool, true, ◌≡◌, refl, ap, sym, List, [], ◌∷◌, ◌++◌, lookup-insert, arith, str_eq, eq_iff,
  if◌then◌else◌, Bool-cases, inl, inr,
}
use test_at_scale.Models.{RunnerOptions, ContainerStatus}
use test_at_scale.Synapse.{
  Json, Message, handle_task, handle_abort, Synapse, resource_release, job_aborted, job_completed,
  job_failed, process_message, process_task, process_abort_build, update_job_status, is_aborted,
  label, StatusType, create_job_update_message, create_resource_stats_message, create_job_info,
  write_message_to_buffer, send_resource_updates, get_resources,
}

-- The state of the process: what is shared, and the tasks whose container has not ended.
pub record Process : Type 0 where
  pub synapse : Synapse
  pub active : List RunnerOptions

pub data Step (json : Json) : Process → Process → Type 0 where
  task_received :
      {s : Synapse} {active : List RunnerOptions} (msg : String) (m : Message)
      → process_message json msg ≡ handle_task m
      → Step json
          (record { synapse = s; active = active })
          (record {
            synapse = (process_task json m s).1;
            active = (process_task json m s).0 ∷ active;
          })
  abort_received :
      {s : Synapse} {active : List RunnerOptions} (msg : String) (m : Message)
      → process_message json msg ≡ handle_abort m
      → Step json
          (record { synapse = s; active = active })
          (record { synapse = process_abort_build m s; active = active })
  container_ended :
      {s : Synapse} (before after : List RunnerOptions) (r : RunnerOptions)
      (status : ContainerStatus)
      → Step json
          (record { synapse = s; active = before ++ r ∷ after })
          (record { synapse = update_job_status json r status s; active = before ++ after })

pub data Steps (json : Json) : Process → Process → Type 0 where
  done : {p : Process} → Steps json p p
  step : {p q r : Process} → Step json p q → Steps json q r → Steps json p r

abbrev p_aborted : Process → String → Bool
p_aborted p build_id = is_aborted p.synapse.build_abort_map build_id

process_task-aborts :
    (json : Json) (m : Message) (s : Synapse)
    → (process_task json m s).1.build_abort_map ≡ s.build_abort_map
unfolding process_task write_message_to_buffer
process_task-aborts json m s = ground arith

abort-aborted :
    (m : Message) (s : Synapse) (build_id : String)
    → is_aborted s.build_abort_map build_id ≡ true
    → is_aborted (process_abort_build m s).build_abort_map build_id ≡ true
unfolding process_abort_build
abort-aborted m s build_id h =
    rw (lookup-insert m.content build_id true s.build_abort_map)
      (elim (Bool-cases (str_eq m.content build_id)) [
        | inl same ↦ rw same refl
        | inr other ↦ rw other h
      ])

Step-aborted :
    (json : Json) (p q : Process) (build_id : String)
    → Step json p q
    → p_aborted p build_id ≡ true
    → p_aborted q build_id ≡ true
unfolding update_job_status send_resource_updates write_message_to_buffer
Step-aborted json p q build_id (task_received {s = s} msg m e) h =
    rw (process_task-aborts json m s) h
Step-aborted json p q build_id (abort_received {s = s} msg m e) h = abort-aborted m s build_id h
Step-aborted json p q build_id (container_ended before after r status) h = h

pub Steps-aborted :
    (json : Json) (p q : Process) (build_id : String)
    → Steps json p q
    → p_aborted p build_id ≡ true
    → p_aborted q build_id ≡ true
Steps-aborted json p q build_id done h = h
Steps-aborted json p q build_id (step {q = next} one rest) h =
    Steps-aborted json next q build_id rest (Step-aborted json p next build_id one h)

-- The two messages that end a task: the release of its resources, then the status of its job.
abbrev pub end_messages : Json → StatusType → RunnerOptions → ContainerStatus → List Message
end_messages json job_status r status =
    create_resource_stats_message json
      (record { status = resource_release; resources = get_resources r.tier })
    ∷ create_job_update_message json (create_job_info job_status r status.error.message)
    ∷ []

append_twice : (xs : List Message) (a b : Message) → (xs ++ a ∷ []) ++ b ∷ [] ≡ xs ++ a ∷ b ∷ []
append_twice [] a b = refl
append_twice (x ∷ xs) a b = ap (λ r. x ∷ r) (append_twice xs a b)

abbrev pub end_status : Bool → Bool → StatusType
end_status aborted finished =
    if aborted then job_aborted else (if finished then job_completed else job_failed)

-- The end of a container writes two messages: the release of the resources of its tier, then the
-- status of the job, which is aborted if the build was aborted, else completed if the container is
-- done, else failed. Nothing else of the shared state changes.
pub update_job_status-sent :
    (json : Json) (r : RunnerOptions) (status : ContainerStatus) (s : Synapse)
    → ((update_job_status json r status s).sent
        ≡ s.sent
          ++ end_messages json
              (end_status (is_aborted s.build_abort_map (label "build-id" r)) status.done)
              r
              status)
      × ((update_job_status json r status s).build_abort_map ≡ s.build_abort_map)
unfolding update_job_status send_resource_updates write_message_to_buffer
update_job_status-sent json r status s = (append_twice s.sent _ _, refl)

-- After an abort of a build, whatever steps of other tasks follow it, a container of the build that
-- ends is reported as aborted, whatever its status.
pub aborted_is_reported :
    (json : Json) (m : Message) (s : Synapse) (active : List RunnerOptions) (q : Process)
    (r : RunnerOptions) (status : ContainerStatus)
    → label "build-id" r ≡ m.content
    → Steps json (record { synapse = process_abort_build m s; active = active }) q
    → (update_job_status json r status q.synapse).sent
      ≡ q.synapse.sent ++ end_messages json job_aborted r status
unfolding process_abort_build
aborted_is_reported json m s active q r status same steps =
    let build = label "build-id" r in
    let at_once : is_aborted (process_abort_build m s).build_abort_map build ≡ true =
      rw
        (
          lookup-insert m.content build true s.build_abort_map,
          (eq_iff m.content build).1 (sym same),
        )
        refl in
    let later =
      Steps-aborted json (record { synapse = process_abort_build m s; active = active }) q build
        steps at_once in
    let sent = (update_job_status-sent json r status q.synapse).0 in rw later at sent
