-- ===== src/Runner/Launch.antt =====
-- What `Initiate` does to the list of running containers, on every path.
use test_at_scale.Prelude.{
  subst, ◌≡◌, ◌↔◌, refl, sym, true, false, none, some, List, [], ◌∷◌, ◌++◌, arith, zero, suc,
  Option-cases, Bool-cases, inl, inr, ◌⊎◌,
}
use mathlib.Core.Bool.{true≢false}
use test_at_scale.Errs.{Err, message, docker_strt}
use test_at_scale.Models.{RunnerOptions, ContainerStatus}
use test_at_scale.Runner.Remove.{holds, remove-append}
use test_at_scale.Runner.{
  Daemon, Launched, reported, waiting, WaitEvent, wait_error, exited, created, failure, create, run,
  launch_created, with_args, launch, wait_for_completion, wait_result, ended, complete,
}

-- Why a container does not run: it was not created, or it was and did not start.
abbrev pub IsRefused : Daemon → RunnerOptions × ContainerStatus → ContainerStatus → Type 0
IsRefused d (r, status) answer =
    (status.done ≡ false) × (answer ≡ status)
    ⊎ (status.done ≡ true)
      × (e : Err) × (d.container_start r.container_id ≡ some e)
      × (answer ≡ failure (docker_strt (message e)))

-- The list and the answer of a launch fit: a refusal changes nothing and its status is not done; a
-- container that was created and started stands at the end of the list.
abbrev pub IsLaunch :
    Daemon
    → RunnerOptions × ContainerStatus
    → List RunnerOptions
    → List RunnerOptions × Launched
    → Type 0
IsLaunch d made running (running', reported status) =
    (running' ≡ running) × (status.done ≡ false) × IsRefused d made status
IsLaunch d made running (running', waiting r) =
    (running' ≡ running ++ r ∷ [])
    × (r ≡ made.0)
    × (made.1.done ≡ true)
    × (d.container_start r.container_id ≡ none)

run-cases :
    (d : Daemon) (running : List RunnerOptions) (r : RunnerOptions)
    → (d.container_start r.container_id ≡ none) × (run d running r ≡ (running ++ r ∷ [], created))
      ⊎ (e : Err) × (d.container_start r.container_id ≡ some e)
        × (run d running r ≡ (running, failure (docker_strt (message e))))
unfolding run
run-cases d running r = elim (Option-cases (d.container_start r.container_id)) [
  | inl started ↦ inl (started, rw started refl)
  | inr (e, refused) ↦ inr (e, refused, rw refused refl)
]

launch_created-IsLaunch :
    (d : Daemon) (running : List RunnerOptions) (c : RunnerOptions × ContainerStatus)
    → IsLaunch d c running (launch_created d running c)
unfolding launch_created
launch_created-IsLaunch d running (r, status) = elim (Bool-cases status.done) [
  | inr fails ↦
      let same : launch_created d running (r, status) ≡ (running, reported status) =
        rw (launch_created, fails) refl in
      subst (IsLaunch d (r, status) running) (sym same) (refl, fails, inl (fails, refl))
  | inl done ↦ elim (run-cases d running r) [
    | inl (started, ran) ↦
        let same : launch_created d running (r, status) ≡ (running ++ r ∷ [], waiting r) =
          rw (launch_created, done, ran) refl in
        subst (IsLaunch d (r, status) running) (sym same) (refl, refl, done, started)
    | inr (e, refused, ran) ↦
        let same : launch_created d running (r, status)
            ≡ (running, reported (failure (docker_strt (message e)))) =
          rw (launch_created, done, ran) refl in
        subst (IsLaunch d (r, status) running) (sym same) (refl, refl, inr (done, e, refused, refl))
  ]
]

-- Whatever the daemon answers, a launch leaves the list of running containers as it was and reports a
-- status that is not done, exactly that of the creation if it failed and else the error of the start, or it
-- appends the container to the list and waits, and then the container was created and started.
pub launch-IsLaunch :
    (d : Daemon) (running : List RunnerOptions) (r : RunnerOptions)
    → IsLaunch d (create d (with_args d r)) running (launch d running r)
unfolding launch
launch-IsLaunch d running r = launch_created-IsLaunch d running (create d (with_args d r))

wait_result-done :
    (w : WaitEvent)
    → ((ended (wait_result w)).done ≡ true) ↔ ((w ≡ wait_error none) ⊎ (w ≡ exited 0))
unfolding wait_result
wait_result-done (wait_error none) = (λ h. inl refl, λ h. refl)
wait_result-done (wait_error (some e)) = (λ h. absurd (true≢false (sym h)), λ h. ground arith)
wait_result-done (exited zero) = (λ h. inr refl, λ h. refl)
wait_result-done (exited (suc n)) = (λ h. absurd (ground arith), λ h. ground arith)

-- A container that was launched under an id that no running container had, and then ends, however
-- it ends, with no change of the list in between, leaves the list as it was before the launch; its
-- status is done exactly if the wait ended without an error or with exit status 0.
pub launch-complete :
    (d : Daemon) (running running' : List RunnerOptions) (r r' : RunnerOptions)
    → launch d running r ≡ (running', waiting r')
    → holds r' running ≡ false
    → ((complete d running' r').0 ≡ running)
      × (((complete d running' r').1.done ≡ true) ↔ (
          (d.container_wait r'.container_id ≡ wait_error none)
          ⊎ (d.container_wait r'.container_id ≡ exited 0)))
unfolding complete wait_for_completion
launch-complete d running running' r r' launched fresh =
    let appended : IsLaunch d (create d (with_args d r)) running (running', waiting r') =
      rw launched at (launch-IsLaunch d running r) in
    (
      rw (appended.0) (remove-append r' running fresh),
      wait_result-done (d.container_wait r'.container_id),
    )
