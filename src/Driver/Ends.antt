-- ===== src/Driver/Ends.antt =====
-- How the end of an action goes with the status of the task.
use test_at_scale.Prelude.{◌≡◌, subst}
use test_at_scale.Errs.{Result, ok, err, panicked}
use test_at_scale.Models.{TaskPayload, passed}
use test_at_scale.Driver.Actions.{World, Action, go_on, ◌>>=◌}
use test_at_scale.Driver.Keeps.{Keeps, task_of}

-- The task is passed exactly by success, and is as it was after an error or a panic.
abbrev pub Ended : TaskPayload → World × Result (Unit {0}) → Type 0
Ended t (w, ok unit) = w.task ≡ record t { status = passed }
Ended t (w, err e) = w.task ≡ t
Ended t (w, panicked) = w.task ≡ t

go_on-Ended {ℓ} :
    {A : Type ℓ} (f : A → Action (Unit {0}))
    → ((a : A) (w : World) → Ended w.task (f a w))
    → (t : TaskPayload) (r : World × Result A) → r.0.task ≡ t
    → Ended t (go_on r f)
go_on-Ended f rest t (w, panicked) same = same
go_on-Ended f rest t (w, err e) same = same
go_on-Ended f rest t (w, ok a) same = subst (λ t. Ended t (f a w)) same (rest a w)

pub >>=-Ended {ℓ} :
    {A : Type ℓ} (m : Action A) (f : A → Action (Unit {0}))
    → Keeps task_of m
    → ((a : A) (w : World) → Ended w.task (f a w))
    → (w : World) → Ended w.task ((m >>= f) w)
>>=-Ended m f first rest w = go_on-Ended f rest w.task (m w) (first w)
