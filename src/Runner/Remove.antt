-- ===== src/Runner/Remove.antt =====
-- `removeContainerID` of pkg/runner/docker/docker.go against a plain removal.
use test_at_scale.Prelude.{
  ℕ, zero, suc, ◌+◌, ◌-◌, ◌<◌, Bool, true, false, ◌≡◌, refl, ap, ◌∙◌, Option, none, some, List, [],
  ◌∷◌, ◌++◌, take, drop, length, any, not, ◌&&◌, arith, str_eq, eq_iff, ◌==◌, if◌then◌else◌,
  Bool-cases, inl, inr,
}
use test_at_scale.Models.{RunnerOptions}

abbrev pub same_container : RunnerOptions → RunnerOptions → Bool
same_container a b = str_eq a.container_id b.container_id

-- The index of the first container of the id, counted from `i`.
unfoldable pub find_container : ℕ → List RunnerOptions → RunnerOptions → Option ℕ
find_container i [] r = none
find_container i (val ∷ slice) r =
    let rest = find_container (suc i) slice r in if same_container val r then some i else rest

abbrev pub without_index : List RunnerOptions → Option ℕ → List RunnerOptions
without_index slice none = slice
without_index slice (some index) =
    take index slice ++ (if index == length slice - 1 then [] else drop (index + 1) slice)

unfoldable pub remove_container_id : List RunnerOptions → RunnerOptions → List RunnerOptions
unfolding find_container
remove_container_id slice r = without_index slice (find_container 0 slice r)

-- The list without its first container of the id.
abbrev pub erase_container : RunnerOptions → List RunnerOptions → List RunnerOptions
erase_container r [] = []
erase_container r (val ∷ slice) =
    if same_container val r then slice else val ∷ erase_container r slice

abbrev suc_option : Option ℕ → Option ℕ
suc_option none = none
suc_option (some n) = some (suc n)

find_container-suc :
    (i : ℕ) (slice : List RunnerOptions) (r : RunnerOptions)
    → find_container (suc i) slice r ≡ suc_option (find_container i slice r)
unfolding find_container
find_container-suc i [] r = refl
find_container-suc i (val ∷ slice) r = ground (arith, find_container-suc (suc i) slice r)

find_container_bound :
    (slice : List RunnerOptions) (r : RunnerOptions) (k : ℕ)
    → find_container 0 slice r ≡ some k
    → k < length slice
unfolding find_container
find_container_bound [] r k h = cc
find_container_bound (val ∷ slice) r zero h = omega arith
find_container_bound (val ∷ slice) r (suc k) h =
    ground (arith, find_container-suc 0 slice r, find_container_bound slice r k)

without_index-suc :
    (val : RunnerOptions) (slice : List RunnerOptions) (o : Option ℕ)
    → ((k : ℕ) → o ≡ some k → k < length slice)
    → without_index (val ∷ slice) (suc_option o) ≡ val ∷ without_index slice o
without_index-suc val slice none h = refl
without_index-suc val slice (some k) h =
    let inside = h k refl in
    let e : suc k + 1 ≡ suc (k + 1) = omega arith in
    rw e (elim (Bool-cases (k == length slice - 1)) [
      | inl last ↦
          let last' : (suc k == suc (length slice) - 1) ≡ true = ground arith in rw (last, last')
      | inr inner ↦
          let inner' : (suc k == suc (length slice) - 1) ≡ false = ground arith in
          rw (inner, inner')
    ])

first_removed :
    (val : RunnerOptions) (slice : List RunnerOptions)
    → without_index (val ∷ slice) (some 0) ≡ slice
first_removed val [] = refl
first_removed val (w ∷ slice) = ground arith

-- The slices of removeContainerID leave exactly the list without its first container of the id; with
-- no such container the list is unchanged.
remove_container_id-erase :
    (slice : List RunnerOptions) (r : RunnerOptions)
    → remove_container_id slice r ≡ erase_container r slice
unfolding remove_container_id
remove_container_id-erase [] r = refl
remove_container_id-erase (val ∷ slice) r = elim (Bool-cases (same_container val r)) [
  | inl found ↦ rw found (first_removed val slice)
  | inr other ↦
      rw (other, find_container-suc 0 slice r)
        (without_index-suc val slice (find_container 0 slice r) (find_container_bound slice r)
          ∙ ap (λ l. val ∷ l) (remove_container_id-erase slice r))
]

-- Whether the list holds a container of the id.
abbrev pub holds : RunnerOptions → List RunnerOptions → Bool
holds w = any (same_container w)

-- No two containers of the list have one id.
abbrev pub IsDistinct : List RunnerOptions → Type 0
IsDistinct [] = Unit
IsDistinct (val ∷ slice) = (holds val slice ≡ false) × IsDistinct slice

holds_same :
    (v w : RunnerOptions) (slice : List RunnerOptions)
    → same_container v w ≡ true
    → holds v slice ≡ holds w slice
holds_same v w [] h = refl
holds_same v w (x ∷ slice) h = ground (
  arith,
  holds_same v w slice h,
  eq_iff v.container_id w.container_id,
  eq_iff v.container_id x.container_id,
  eq_iff w.container_id x.container_id,
)

holds-erase :
    (w r : RunnerOptions) (slice : List RunnerOptions)
    → IsDistinct slice
    → holds w (erase_container r slice) ≡ (holds w slice && not (same_container w r))
holds-erase w r [] d = refl
holds-erase w r (val ∷ slice) d = ground (
  arith,
  holds-erase w r slice d.1,
  holds_same w val slice,
  eq_iff w.container_id val.container_id,
  eq_iff w.container_id r.container_id,
  eq_iff val.container_id r.container_id,
)

-- From a list in which no two containers share an id, a removal takes the container of the given id
-- and no other: afterwards a container is in the list exactly if it was and has another id.
holds-remove_container_id :
    (w r : RunnerOptions) (slice : List RunnerOptions)
    → IsDistinct slice
    → holds w (remove_container_id slice r) ≡ (holds w slice && not (same_container w r))
holds-remove_container_id w r slice d =
    rw (remove_container_id-erase slice r) (holds-erase w r slice d)

erase-append :
    (r : RunnerOptions) (slice : List RunnerOptions)
    → holds r slice ≡ false
    → erase_container r (slice ++ r ∷ []) ≡ slice
erase-append r [] h = rw ((eq_iff r.container_id r.container_id).1 refl)
erase-append r (val ∷ slice) h =
    let differs : same_container val r ≡ false =
      ground
        (arith, eq_iff r.container_id val.container_id, eq_iff val.container_id r.container_id) in
    rw differs (ap (λ l. val ∷ l) (erase-append r slice (ground arith)))

-- Removing the container that was appended last, with an id that the list did not hold, restores it.
pub remove-append :
    (r : RunnerOptions) (slice : List RunnerOptions)
    → holds r slice ≡ false
    → remove_container_id (slice ++ r ∷ []) r ≡ slice
remove-append r slice h = remove_container_id-erase (slice ++ r ∷ []) r ∙ erase-append r slice h
