-- ===== src/Lifecycle/Racing/Ends.antt =====
-- What `Start` of pkg/core/lifecycle.go may report last, when its first report is sent beside it.
use test_at_scale.Prelude.{
  ◌∙◌, ap, ◌≡◌, ◌↔◌, refl, sym, subst, ℕ, Option, none, some, List, [], ◌∷◌, All, Bool, true, false,
}
use mathlib.Core.List.{Memᴰ}
use mathlib.Core.List.Memᴰ.{head, tail}
use test_at_scale.Errs.{Result, Err, ok, err, panicked}
use test_at_scale.Models.{TaskPayload}
use test_at_scale.Lifecycle.{final_status, ended_at}
use test_at_scale.Lifecycle.Racing.{
  drive, over, testing, reads_again, translates, breaks_on_nil, reads_error, reports_error,
}
use test_at_scale.Lifecycle.Racing.{
  Script, returns, panics, call, run_alone, possible, Main, at, returned, First, waiting, assigned,
  State, state, Step, calls, goes_on, fails, ends, breaks, reports, reports_panic, moves, sends,
  assigns, no_step, step_then, Reports,
}
use test_at_scale.Lifecycle.Racing.Kept.{Out, IsFine-IsTold, Steps-IsFine}

pub run_alone-drive :
    (r : TaskPayload × Result (Unit {0})) (t : TaskPayload) → run_alone (drive r) t ≡ r
unfolding run_alone
run_alone-drive (t', ok u) t = refl
run_alone-drive (t', err e) t = refl
run_alone-drive (t', panicked) t = refl

All-Memᴰ : {A : Type 0} (Q : A → Type 0) (xs : List A) → ((x : A) → Memᴰ x xs → Q x) → All Q xs
All-Memᴰ Q [] f = tt
All-Memᴰ Q (x ∷ xs) f = (f x (head refl), All-Memᴰ Q xs (λ y m. f y (tail m)))

module _ (send : TaskPayload → Option Err) (end_time : ℕ) where
  abbrev pub last_of : Out → TaskPayload
  last_of out = final_status (ended_at end_time out)

  abbrev Later : Script → TaskPayload → Out → Type 0
  Later c t out = Reports send end_time (state (at c) none t waiting) (last_of out)

  step-Reports :
      {a b : State} {last : TaskPayload}
      → Step send end_time a b
      → Reports send end_time b last
      → Reports send end_time a last
  step-Reports step (e, t, f, steps) = (e, t, f, step_then step steps)

  returned-Reports :
      (t : TaskPayload) (f : First)
      → Reports send end_time (state returned none t f) (last_of (t, ok tt))
  returned-Reports t f = (none, t, f, step_then (moves reports) no_step)

  failed-Reports :
      (x : Err) (t : TaskPayload) (f : First)
      → Reports send end_time (state returned (some x) t f) (last_of (t, err x))
  failed-Reports x t f =
      (some x, t, f, step_then (moves reads_error) (step_then (moves reports_error) no_step))

  testing-Reports :
      (again : Bool) (rest : Script) (x : Err) (t : TaskPayload) (f : First)
      → Reports send end_time (state (testing again rest) (some x) t f) (last_of (t, err x))
  testing-Reports false rest x t f = step-Reports (moves fails) (failed-Reports x t f)
  testing-Reports true rest x t f =
      step-Reports (moves reads_again) (step-Reports (moves translates) (failed-Reports x t f))

  pub run_alone-Reports :
      (c : Script) (t : TaskPayload) (f : First)
      → Reports send end_time (state (at c) none t f) (last_of (run_alone c t))
  unfolding run_alone
  run_alone-Reports returns t f = step-Reports (moves ends) (returned-Reports t f)
  run_alone-Reports (panics t') t f =
      step-Reports (moves breaks) (none, t', f, step_then (moves reports_panic) no_step)
  run_alone-Reports (call t' again none rest) t f =
      step-Reports (moves calls) (step-Reports (moves goes_on) (run_alone-Reports rest t' f))
  run_alone-Reports (call t' again (some x) rest) t f =
      step-Reports (moves calls) (testing-Reports again rest x t' f)

  module _ (accepts : (t : TaskPayload) → send t ≡ none) where
    -- The goroutine runs now.
    missed-Reports :
        {m : Main} {e : Option Err} {t : TaskPayload} {last : TaskPayload}
        → Reports send end_time (state m none t assigned) last
        → Reports send end_time (state m e t waiting) last
    missed-Reports {t = t} r = step-Reports (sends (accepts t)) (step-Reports assigns r)

    -- A test that fails, and what comes after it when the nil is written.
    testing_missed-Reports :
        (again : Bool) (rest : Script) (x : Err) (t : TaskPayload)
        → Reports send end_time (state (testing again rest) (some x) t waiting) (last_of (t, ok tt))
    testing_missed-Reports false rest x t =
        step-Reports (moves fails) (missed-Reports (returned-Reports t assigned))
    testing_missed-Reports true rest x t =
        step-Reports (moves reads_again)
          (step-Reports (moves translates) (missed-Reports (returned-Reports t assigned)))

    -- The three outcomes that every failing call has.
    failing-Reports :
        (again : Bool) (t' : TaskPayload) (x : Err) (rest : Script) (t : TaskPayload) (out : Out)
        → Memᴰ out ((t', err x) ∷ (t', ok tt) ∷ run_alone rest t' ∷ [])
        → Later (call t' again (some x) rest) t out
    failing-Reports again t' x rest t out (head same) =
        subst (Later (call t' again (some x) rest) t) (sym same)
          (step-Reports (moves calls) (testing-Reports again rest x t' waiting))
    failing-Reports again t' x rest t out (tail (head same)) =
        subst (Later (call t' again (some x) rest) t) (sym same)
          (step-Reports (moves calls) (testing_missed-Reports again rest x t'))
    failing-Reports again t' x rest t out (tail (tail (head same))) =
        subst (Later (call t' again (some x) rest) t) (sym same) (
          step-Reports (moves calls)
            (missed-Reports (step-Reports (moves goes_on) (run_alone-Reports rest t' assigned))))
    failing-Reports again t' x rest t out (tail (tail (tail m))) = elim m [ ]

    possible-Reports :
        (c : Script) (t : TaskPayload) (out : Out) → Memᴰ out (possible c t) → Later c t out
    unfolding possible run_alone
    possible-Reports returns t out (head same) =
        subst (Later returns t) (sym same) (run_alone-Reports returns t waiting)
    possible-Reports returns t out (tail m) = elim m [ ]
    possible-Reports (panics t') t out (head same) =
        subst (Later (panics t') t) (sym same) (run_alone-Reports (panics t') t waiting)
    possible-Reports (panics t') t out (tail m) = elim m [ ]
    possible-Reports (call t' again none rest) t out h =
        step-Reports (moves calls) (step-Reports (moves goes_on) (possible-Reports rest t' out h))
    possible-Reports (call t' false (some x) rest) t out h = failing-Reports false t' x rest t out h
    possible-Reports (call t' true (some x) rest) t out (head same) =
        failing-Reports true t' x rest t out (head same)
    possible-Reports (call t' true (some x) rest) t out (tail (head same)) =
        failing-Reports true t' x rest t out (tail (head same))
    possible-Reports (call t' true (some x) rest) t out (tail (tail (head same))) =
        failing-Reports true t' x rest t out (tail (tail (head same)))
    possible-Reports (call t' true (some x) rest) t out (tail (tail (tail (head same)))) =
        subst (Later (call t' true (some x) rest) t) (sym same) (
          step-Reports (moves calls) (
            step-Reports (moves reads_again) (
              missed-Reports (
                step-Reports (moves breaks_on_nil)
                  (none, t', assigned, step_then (moves reports_panic) no_step)))))
    possible-Reports (call t' true (some x) rest) t out (tail (tail (tail (tail m)))) = elim m [ ]

    -- If the reports are accepted, then a task payload can be reported last exactly if it comes from one of the
    -- outcomes that the script allows: the one without the goroutine, or, where that fails, no error at
    -- all, what the body comes to when it misses this error and goes on, or, if the error is read
    -- again after its test, a panic.
    pub Reports-possible :
        (c : Script) (t last : TaskPayload)
        → Reports send end_time (state (at c) none t waiting) last
          ↔ ((out : Out) × Memᴰ out (possible c t) × (last ≡ final_status (ended_at end_time out)))
    Reports-possible c t last = (
      λ (e, t', f, steps).
          IsFine-IsTold (λ out. Memᴰ out (possible c t)) end_time last e t' f
            (Steps-IsFine (λ out. Memᴰ out (possible c t)) end_time send accepts steps
              (All-Memᴰ _ (possible c t) (λ x m. m), refl, tt)),
      λ (out, allowed, same).
          subst (Reports send end_time _) (sym same) (possible-Reports c t out allowed),
    )

    -- What is reported when the goroutine has ended before.
    pub over-Reports :
        (c : Script) (t last : TaskPayload)
        → Reports send end_time (state (at c) none t over) last
        → last ≡ last_of (run_alone c t)
    over-Reports c t last (e, t', f, steps) =
        let (out, same, told) =
          IsFine-IsTold (λ out. out ≡ run_alone c t) end_time last e t' f
            (Steps-IsFine (λ out. out ≡ run_alone c t) end_time send accepts steps
              ((refl, tt), refl, tt)) in
        told ∙ ap last_of same
