-- ===== src/Lifecycle/Racing/Kept.antt =====
-- An invariant of the steps of the body and of the first report of pkg/core/lifecycle.go: what may still
-- come of a state is possible.
use test_at_scale.Prelude.{
  ◌≡◌, refl, sym, ◌∙◌, subst, ℕ, Option, none, some, List, [], ◌∷◌, All, true, false,
}
use test_at_scale.Errs.{Err, Result, ok, err, panicked}
use test_at_scale.Models.{TaskPayload}
use test_at_scale.Lifecycle.{final_status, ended_at}
use test_at_scale.Lifecycle.Racing.{
  translating, reporting, reads_again, translates, breaks_on_nil, reads_error, reports_error,
  crashes,
}
use test_at_scale.Lifecycle.Racing.{
  Script, returns, panics, call, run_alone, possible, Main, at, testing, returned, recovered, ended,
  exited, First, waiting, answered, assigned, over, State, state, Moves, Step, calls, goes_on,
  fails, ends, breaks, reports, reports_panic, moves, sends, assigns, stops, kills, Steps, no_step,
  step_then,
}

abbrev pub Out : Type 0
Out = TaskPayload × Result (Unit {0})

-- What the rest of a state comes to if nothing else writes to `err`, and what else it may come to.
abbrev pub alone : Main → Option Err → TaskPayload → List Out
alone (at c) e t = run_alone c t ∷ []
alone (testing again c) none t = run_alone c t ∷ []
alone (testing again c) (some x) t = (t, err x) ∷ []
alone translating none t = (t, panicked) ∷ []
alone translating (some x) t = (t, err x) ∷ []
alone returned none t = (t, ok tt) ∷ []
alone returned (some x) t = (t, err x) ∷ []
alone recovered e t = (t, panicked) ∷ []
alone (reporting x) e t = (t, err x) ∷ []
alone (ended last) e t = []
alone exited e t = []

abbrev pub to_come : Main → Option Err → TaskPayload → List Out
to_come (at c) e t = possible c t
to_come (testing again c) none t = possible c t
to_come (testing false c) (some x) t = (t, err x) ∷ (t, ok tt) ∷ run_alone c t ∷ []
to_come (testing true c) (some x) t = (t, err x) ∷ (t, ok tt) ∷ run_alone c t ∷ (t, panicked) ∷ []
to_come translating none t = (t, panicked) ∷ []
to_come translating (some x) t = (t, err x) ∷ (t, ok tt) ∷ (t, panicked) ∷ []
to_come returned none t = (t, ok tt) ∷ []
to_come returned (some x) t = (t, err x) ∷ (t, ok tt) ∷ []
to_come recovered e t = (t, panicked) ∷ []
to_come (reporting x) e t = (t, err x) ∷ []
to_come (ended last) e t = []
to_come exited e t = []

abbrev pub IsClean : Main → Option Err → Type 0
IsClean (at c) e = e ≡ none
IsClean (testing again c) e = Unit
IsClean translating e = Unit
IsClean returned e = Unit
IsClean recovered e = Unit
IsClean (reporting x) e = Unit
IsClean (ended last) e = Unit
IsClean exited e = Unit

module _ (P : Out → Type 0) (end_time : ℕ) where
  abbrev pub IsTold : Main → Type 0
  IsTold (at c) = Unit
  IsTold (testing again c) = Unit
  IsTold translating = Unit
  IsTold returned = Unit
  IsTold recovered = Unit
  IsTold (reporting x) = Unit
  IsTold (ended last) = (out : Out) × P out × (last ≡ final_status (ended_at end_time out))
  IsTold exited = Unit

  run_alone-possible : (c : Script) (t : TaskPayload) → All P (possible c t) → P (run_alone c t)
  unfolding run_alone possible
  run_alone-possible returns t h = h.0
  run_alone-possible (panics t') t h = h.0
  run_alone-possible (call t' again none rest) t h = run_alone-possible rest t' h
  run_alone-possible (call t' false (some e) rest) t h = h.0
  run_alone-possible (call t' true (some e) rest) t h = h.0

  to_come-alone :
      (m : Main) (e : Option Err) (t : TaskPayload) → All P (to_come m e t) → All P (alone m e t)
  to_come-alone (at c) e t h = (run_alone-possible c t h, tt)
  to_come-alone (testing again c) none t h = (run_alone-possible c t h, tt)
  to_come-alone (testing false c) (some x) t h = (h.0, tt)
  to_come-alone (testing true c) (some x) t h = (h.0, tt)
  to_come-alone translating none t h = h
  to_come-alone translating (some x) t h = (h.0, tt)
  to_come-alone returned none t h = h
  to_come-alone returned (some x) t h = (h.0, tt)
  to_come-alone recovered e t h = h
  to_come-alone (reporting x) e t h = h
  to_come-alone (ended last) e t h = tt
  to_come-alone exited e t h = tt

  -- A nil that is written to `err` now.
  to_come-missed :
      (m : Main) (e : Option Err) (t : TaskPayload) → All P (to_come m e t) → All P (alone m none t)
  to_come-missed (at c) e t h = (run_alone-possible c t h, tt)
  to_come-missed (testing again c) none t h = (run_alone-possible c t h, tt)
  to_come-missed (testing false c) (some x) t h = h.1.1
  to_come-missed (testing true c) (some x) t h = (h.1.1.0, tt)
  to_come-missed translating none t h = h
  to_come-missed translating (some x) t h = h.1.1
  to_come-missed returned none t h = h
  to_come-missed returned (some x) t h = h.1
  to_come-missed recovered e t h = h
  to_come-missed (reporting x) e t h = h
  to_come-missed (ended last) e t h = tt
  to_come-missed exited e t h = tt

  Moves-alone :
      {t t' : TaskPayload} {e e' : Option Err} {m m' : Main}
      → Moves end_time m e t m' e' t'
      → IsClean m e
      → All P (alone m e t)
      → All P (alone m' e' t') × IsClean m' e' × IsTold m'
  unfolding run_alone
  Moves-alone (calls {a = none}) clean h = (h, tt, tt)
  Moves-alone (calls {a = some x}) clean h = (h, tt, tt)
  Moves-alone goes_on clean h = (h, refl, tt)
  Moves-alone fails clean h = (h, tt, tt)
  Moves-alone reads_again clean h = (h, tt, tt)
  Moves-alone translates clean h = (h, tt, tt)
  Moves-alone breaks_on_nil clean h = (h, tt, tt)
  Moves-alone (ends {t}) clean h = (subst (λ x. All P (alone returned x t)) (sym clean) h, tt, tt)
  Moves-alone breaks clean h = (h, tt, tt)
  Moves-alone reports clean h = (tt, tt, (_, h.0, refl))
  Moves-alone reads_error clean h = (h, tt, tt)
  Moves-alone reports_error clean h = (tt, tt, (_, h.0, refl))
  Moves-alone crashes clean h = (tt, tt, tt)
  Moves-alone reports_panic clean h = (tt, tt, (_, h.0, refl))

  Moves-to_come :
      {t t' : TaskPayload} {e e' : Option Err} {m m' : Main}
      → Moves end_time m e t m' e' t'
      → IsClean m e
      → All P (to_come m e t)
      → All P (to_come m' e' t')
  unfolding possible
  Moves-to_come (calls {a = none}) clean h = h
  Moves-to_come (calls {again = false} {a = some x}) clean h = h
  Moves-to_come (calls {again = true} {a = some x}) clean h = h
  Moves-to_come goes_on clean h = h
  Moves-to_come fails clean (failed, (missed, rest)) = (failed, (missed, tt))
  Moves-to_come reads_again clean (failed, (missed, (later, rest))) = (failed, (missed, rest))
  Moves-to_come translates clean (failed, (missed, rest)) = (failed, (missed, tt))
  Moves-to_come breaks_on_nil clean h = h
  Moves-to_come (ends {t}) clean h = subst (λ x. All P (to_come returned x t)) (sym clean) h
  Moves-to_come breaks clean h = h
  Moves-to_come reports clean h = tt
  Moves-to_come reads_error clean h = (h.0, tt)
  Moves-to_come reports_error clean h = tt
  Moves-to_come crashes clean h = tt
  Moves-to_come reports_panic clean h = tt

  -- While the goroutine may still write, all that may come is possible; then what comes is.
  abbrev pub IsFine : State → Type 0
  IsFine (state m e t waiting) = All P (to_come m e t) × IsClean m e × IsTold m
  IsFine (state m e t (answered a)) = (a ≡ none) × All P (to_come m e t) × IsClean m e × IsTold m
  IsFine (state m e t assigned) = All P (alone m e t) × IsClean m e × IsTold m
  IsFine (state m e t over) = All P (alone m e t) × IsClean m e × IsTold m

  pub IsFine-IsTold :
      (last : TaskPayload) (e : Option Err) (t : TaskPayload) (f : First)
      → IsFine (state (ended last) e t f)
      → IsTold (ended last)
  IsFine-IsTold last e t waiting (come, clean, told) = told
  IsFine-IsTold last e t (answered a) (accepted, come, clean, told) = told
  IsFine-IsTold last e t assigned (come, clean, told) = told
  IsFine-IsTold last e t over (come, clean, told) = told

  IsClean-missed : (m : Main) → IsClean m none
  IsClean-missed (at c) = refl
  IsClean-missed (testing again c) = tt
  IsClean-missed translating = tt
  IsClean-missed (reporting x) = tt
  IsClean-missed returned = tt
  IsClean-missed recovered = tt
  IsClean-missed (ended last) = tt
  IsClean-missed exited = tt

  module _ (send : TaskPayload → Option Err) (accepts : (t : TaskPayload) → send t ≡ none) where
    still_to_come :
        {t t' : TaskPayload} {e e' : Option Err} {m m' : Main}
        → Moves end_time m e t m' e' t'
        → All P (to_come m e t) × IsClean m e × IsTold m
        → All P (to_come m' e' t') × IsClean m' e' × IsTold m'
    still_to_come {t = t} {e = e} {m = m} move (come, clean, told) =
        let (_, clean', told') = Moves-alone move clean (to_come-alone m e t come) in
        (Moves-to_come move clean come, clean', told')

    Step-IsFine : {a b : State} → Step send end_time a b → IsFine a → IsFine b
    Step-IsFine (moves {f = waiting} move) h = still_to_come move h
    Step-IsFine (moves {f = answered a} move) (accepted, come, clean, told) =
        let (come', clean', told') = still_to_come move (come, clean, told) in
        (accepted, come', clean', told')
    Step-IsFine (moves {f = assigned} move) (come, clean, told) = Moves-alone move clean come
    Step-IsFine (moves {f = over} move) (come, clean, told) = Moves-alone move clean come
    Step-IsFine (sends {t} sent) (come, clean, told) = (sym sent ∙ accepts t, come, clean, told)
    Step-IsFine (assigns {m} {t} {e}) (accepted, come, clean, told) =
        subst (λ a. IsFine (state m a t assigned)) (sym accepted)
          (to_come-missed m e t come, IsClean-missed m, told)
    Step-IsFine stops h = h
    Step-IsFine kills h = (tt, tt, tt)

    pub Steps-IsFine : {a b : State} → Steps send end_time a b → IsFine a → IsFine b
    Steps-IsFine no_step h = h
    Steps-IsFine (step_then step steps) h = Steps-IsFine steps (Step-IsFine step h)
