-- ===== src/Driver/Becomes.antt =====
-- What an action that succeeds makes of a part of the state.
use test_at_scale.Prelude.{◌≡◌, refl, sym, ap, ◌∙◌, Option, none, some, List, ◌∷◌}
use test_at_scale.Errs.{Err, Result, ok, err, panicked}
use test_at_scale.Driver.Actions.{World, Action, ◌>>=◌}
use test_at_scale.Driver.Keeps.{Keeps, >>=-done}
use test_at_scale.Driver.V2.{first_entry, entered}

abbrev pub Becomes {ℓ κ} :
    {V : Type ℓ} {A : Type κ} → (World → V) → (V → V) → Action A → Type (ℓ ⊔ κ)
Becomes {A = A} view f act = (w w' : World) (a : A) → act w ≡ (w', ok a) → view w' ≡ f (view w)

pub >>=-Becomes {ℓ κ μ} :
    {V : Type ℓ} {A : Type κ} {B : Type μ} (view : World → V) (f : V → V) (m : Action A)
    (g : A → Action B)
    → Keeps view m
    → ((a : A) → Becomes view f (g a))
    → Becomes view f (m >>= g)
>>=-Becomes view f m g first rest w w' b h =
    let (between, a, done, next) = >>=-done m g h in
    rest a between w' b next ∙ ap f (sym (ap (λ r. view r.0) done) ∙ first w)

-- The same for an action that keeps the part only where it succeeds.
pub >>=-Becomes_done {ℓ κ μ} :
    {V : Type ℓ} {A : Type κ} {B : Type μ} (view : World → V) (f : V → V) (m : Action A)
    (g : A → Action B)
    → Becomes view (λ v. v) m
    → ((a : A) → Becomes view f (g a))
    → Becomes view f (m >>= g)
>>=-Becomes_done view f m g first rest w w' b h =
    let (between, a, done, next) = >>=-done m g h in
    rest a between w' b next ∙ ap f (first w between a done)

pub Keeps-Becomes {ℓ κ} :
    {V : Type ℓ} {A : Type κ} (view : World → V) (m : Action A)
    → Keeps view m
    → Becomes view (λ v. v) m
Keeps-Becomes view m keeps w w' a h = sym (ap (λ r. view r.0) h) ∙ keeps w

-- The first error of a channel is absent where the channel holds none.
first_entry-cons :
    (e : Option Err) (es : List (Option Err))
    → first_entry (e ∷ es) ≡ ok tt
    → (e ≡ none) × (first_entry es ≡ ok tt)
unfolding first_entry
first_entry-cons none es h = (refl, h)
first_entry-cons (some e) es h = cc

pub firsts_of :
    (w w' : World) (e : Option Err) (es' es : List (Option Err))
    → ◌≡◌ {A = World × Result (List (Option Err))} (w, ok (e ∷ es')) (w', ok es)
    → first_entry es ≡ ok tt
    → (e ≡ none) × (first_entry es' ≡ ok tt)
firsts_of w w' e es' es h first =
    let same_entries : (e ∷ es') ≡ es = cc in
    first_entry-cons e es' (ap first_entry same_entries ∙ first)

pub entered-none {ℓ} :
    {A : Type ℓ} (r : World × Result A) (w' : World)
    → entered r ≡ (w', ok none)
    → (a : A) × (r ≡ (w', ok a))
entered-none (w, ok a) w' h = (a, ap (λ w. (w, ok a)) (ap (λ r. r.0) h))
entered-none (w, err e) w' h = cc
entered-none (w, panicked) w' h = cc

-- The same where the first action makes the change, and the rest keep it.
pub >>=-Becomes_first {ℓ κ μ} :
    {V : Type ℓ} {A : Type κ} {B : Type μ} (view : World → V) (f : V → V) (m : Action A)
    (g : A → Action B)
    → ((w : World) → view (m w).0 ≡ f (view w))
    → ((a : A) → Becomes view (λ v. v) (g a))
    → Becomes view f (m >>= g)
>>=-Becomes_first view f m g first rest w w' b h =
    let (between, a, done, next) = >>=-done m g h in
    rest a between w' b next ∙ sym (ap (λ r. view r.0) done) ∙ first w
