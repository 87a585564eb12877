-- ===== src/Driver/Keeps.antt =====
-- What an action of a driver leaves as it was, and what a chain of actions that succeeds went through.
use test_at_scale.Prelude.{◌≡◌, refl, ◌∙◌, Bool, true, false, if◌then◌else◌}
use test_at_scale.Errs.{Result, ok, err, panicked}
use test_at_scale.Models.{TaskPayload}
use test_at_scale.Driver.Actions.{World, Action, go_on, ◌>>=◌}

-- Whatever an action answers, a part of the state is the same afterwards.
abbrev pub Keeps {ℓ κ} : {V : Type ℓ} {A : Type κ} → (World → V) → Action A → Type ℓ
Keeps view act = (w : World) → view (act w).0 ≡ view w

go_on-Keeps {ℓ κ μ} :
    {V : Type ℓ} {A : Type κ} {B : Type μ} (view : World → V) (f : A → Action B)
    → ((a : A) → Keeps view (f a))
    → (r : World × Result A) → view (go_on r f).0 ≡ view r.0
go_on-Keeps view f keeps (w, panicked) = refl
go_on-Keeps view f keeps (w, err e) = refl
go_on-Keeps view f keeps (w, ok a) = keeps a w

pub >>=-Keeps {ℓ κ μ} :
    {V : Type ℓ} {A : Type κ} {B : Type μ} (view : World → V) (m : Action A) (f : A → Action B)
    → Keeps view m
    → ((a : A) → Keeps view (f a))
    → Keeps view (m >>= f)
>>=-Keeps view m f first rest w = go_on-Keeps view f rest (m w) ∙ first w

pub if-Keeps {ℓ κ} :
    {V : Type ℓ} {A : Type κ} (view : World → V) (b : Bool) (m n : Action A)
    → Keeps view m
    → Keeps view n
    → Keeps view (if b then m else n)
if-Keeps view true m n k l = k
if-Keeps view false m n k l = l

go_on-ok {κ μ} :
    {A : Type κ} {B : Type μ} (f : A → Action B) (r : World × Result A) {w' : World} {b : B}
    → go_on r f ≡ (w', ok b)
    → (w : World) × (a : A) × (r ≡ (w, ok a)) × (f a w ≡ (w', ok b))
go_on-ok f (w, panicked) h = cc
go_on-ok f (w, err e) h = cc
go_on-ok f (w, ok a) h = (w, a, refl, h)

-- A chain that succeeds made its first action succeed, and went on from there.
pub >>=-done {κ μ} :
    {A : Type κ} {B : Type μ} (m : Action A) (f : A → Action B) {w w' : World} {b : B}
    → (m >>= f) w ≡ (w', ok b)
    → (between : World) × (a : A) × (m w ≡ (between, ok a)) × (f a between ≡ (w', ok b))
>>=-done m f {w = w} h = go_on-ok f (m w) h

-- The task that a driver reports on.
abbrev pub task_of : World → TaskPayload
task_of w = w.task
