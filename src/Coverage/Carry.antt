-- ===== src/Coverage/Carry.antt =====
-- What a commit takes over from the one before, pkg/service/coverage/coverage.go.
use test_at_scale.Prelude.{
  String, ◌≡◌, refl, sym, ap, ◌∙◌, Bool, true, false, Option, none, some, List, [], ◌∷◌, or_else,
  is_some, any, str_eq, eq_iff, ◌⊎◌, lookup, arith, if◌then◌else◌, Bool-cases, inl, inr,
}
use test_at_scale.Errs.{Err, Result, ok, check, ◌>>◌, >>=-eq-ok}
use test_at_scale.Coverage.Tree.{
  Entries, empty, file, dir, Copying, has, add_dir, remove_first, walk, enter, copy_dir,
}
use test_at_scale.Coverage.{
  Outside, Volume, copy_from_parent_commit_dir, existing, present, copy_of,
}

-- What a name leads to in a directory.
pub data Node : Type 0 where
  a_file : Node
  a_dir : Entries → Node

abbrev pub find : String → Entries → Option Node
find name empty = none
find name (file n es) = if str_eq n name then some a_file else find name es
find name (dir n sub es) = if str_eq n name then some (a_dir sub) else find name es

abbrev pub find_dir : String → Entries → Option Node
find_dir name empty = none
find_dir name (file n es) = find_dir name es
find_dir name (dir n sub es) = if str_eq n name then some (a_dir sub) else find_dir name es

-- The directories have different names, none of them that of the directory itself.
abbrev pub IsFlat : String → Entries → Type 0
IsFlat base empty = Unit
IsFlat base (file n es) = IsFlat base es
IsFlat base (dir n sub es) = (str_eq n base ≡ false) × (find_dir n es ≡ none) × IsFlat base es

-- What the directory of the parent has to give for a name.
abbrev pub given : String → List String → Entries → Option Node
given name removed es = if any (str_eq name) removed then none else find_dir name es

find-add_dir :
    (name n : String) (sub es : Entries)
    → find n (add_dir name sub es)
      ≡ or_else (find n es) (if str_eq name n then some (a_dir sub) else none)
unfolding add_dir
find-add_dir name n sub empty = refl
find-add_dir name n sub (file m es) = ground (arith, find-add_dir name n sub es)
find-add_dir name n sub (dir m s es) = ground (arith, find-add_dir name n sub es)

has-find : (name : String) (es : Entries) → has name es ≡ true → is_some (find name es) ≡ true
unfolding has
has-find name empty h = cc
has-find name (file m es) h = ground (arith, has-find name es)
has-find name (dir m s es) h = ground (arith, has-find name es)

any-remove_first :
    (name n : String) (ns : List String)
    → str_eq name n ≡ false
    → any (str_eq n) (remove_first name ns) ≡ any (str_eq n) ns
unfolding remove_first
any-remove_first name n [] h = refl
any-remove_first name n (m ∷ ns) h =
    ground (arith, any-remove_first name n ns h, eq_iff name m, eq_iff n m, eq_iff name n)

if_same {ℓ} : {A : Type ℓ} (b : Bool) (x : A) → (if b then x else x) ≡ x
if_same true x = refl
if_same false x = refl

given-removed :
    (name n : String) (sub es : Entries) (removed : List String)
    → any (str_eq name) removed ≡ true
    → find_dir name es ≡ none
    → given n (remove_first name removed) es ≡ given n removed (dir name sub es)
given-removed name n sub es removed gone fresh = elim (Bool-cases (str_eq name n)) [
  | inr other ↦ rw (other, any-remove_first name n removed other) refl
  | inl same ↦
      let e : name ≡ n = (eq_iff name n).0 same in
      let absent : find_dir n es ≡ none = rw e at fresh in
      let met : any (str_eq n) removed ≡ true = rw e at gone in
      rw (absent, met) (if_same (any (str_eq n) (remove_first name removed)) none)
]

or_else-some {ℓ} : {A : Type ℓ} (o x y : Option A) → is_some o ≡ true → or_else o x ≡ or_else o y
or_else-some none x y h = cc
or_else-some (some a) x y h = refl

or_else_assoc {ℓ} :
    {A : Type ℓ} (x y z : Option A) → or_else (or_else x y) z ≡ or_else x (or_else y z)
or_else_assoc none y z = refl
or_else_assoc (some a) y z = refl

given-present :
    (name n : String) (sub es own : Entries) (removed : List String)
    → has name own ≡ true
    → or_else (find n own) (given n removed es)
      ≡ or_else (find n own) (given n removed (dir name sub es))
given-present name n sub es own removed there = elim (Bool-cases (str_eq name n)) [
  | inr other ↦ rw other refl
  | inl same ↦
      let e : name ≡ n = (eq_iff name n).0 same in
      let there' : has n own ≡ true = rw e at there in
      or_else-some (find n own) _ _ (has-find n own there')
]

given-copied :
    (name n : String) (sub es own : Entries) (removed : List String)
    → any (str_eq name) removed ≡ false
    → find_dir name es ≡ none
    → or_else (find n (add_dir name sub own)) (given n removed es)
      ≡ or_else (find n own) (given n removed (dir name sub es))
given-copied name n sub es own removed kept fresh =
    ap (λ x. or_else x (given n removed es)) (find-add_dir name n sub own)
    ∙ or_else_assoc (find n own) (if str_eq name n then some (a_dir sub) else none)
        (given n removed es)
    ∙ ap (or_else (find n own)) (elim (Bool-cases (str_eq name n)) [
      | inr other ↦ rw other refl
      | inl same ↦
          let e : name ≡ n = (eq_iff name n).0 same in
          let kept' : any (str_eq n) removed ≡ false = rw e at kept in rw (same, kept') refl
    ])

abbrev state : List String → Entries → Copying
state removed own = record { removed = removed; own = own }

-- What the entering of one directory has done, where it succeeded.
abbrev Entered : String → Entries → Entries → List String → Copying → Type 0
Entered name sub own removed st =
    ((any (str_eq name) removed ≡ true) × (st ≡ state (remove_first name removed) own))
    ⊎ ((has name own ≡ true) × (st ≡ state removed own))
    ⊎ ((any (str_eq name) removed ≡ false) × (st ≡ state removed (add_dir name sub own)))

enter-cases :
    (copy : String → Option Err) (name : String) (sub own : Entries) (removed : List String)
    (st : Copying)
    → enter copy name sub (state removed own) ≡ ok st
    → Entered name sub own removed st
enter-cases copy name sub own removed st h = by_removed (any (str_eq name) removed) refl h
  where
    copied :
        (o : Option Err)
        → (check o >> ok (state removed (add_dir name sub own))) ≡ ok st
        → st ≡ state removed (add_dir name sub own)
    copied none h = cc
    copied (some e) h = cc

    by_own :
        (b : Bool)
        → has name own ≡ b
        → any (str_eq name) removed ≡ false
        → (if b
            then ok (state removed own)
            else (check (copy name) >> ok (state removed (add_dir name sub own))))
          ≡ ok st
        → Entered name sub own removed st
    by_own true there kept h = inr (inl (there, cc))
    by_own false there kept h = inr (inr (kept, copied (copy name) h))

    by_removed :
        (b : Bool)
        → any (str_eq name) removed ≡ b
        → (if b
            then ok (state (remove_first name removed) own)
            else copy_dir copy name sub (state removed own))
          ≡ ok st
        → Entered name sub own removed st
    by_removed true gone h = inl (gone, cc)
    by_removed false kept h = by_own (has name own) refl kept h

abbrev Carries : String → Entries → List String → Entries → Copying → Type 0
Carries n es removed own st = find n st.own ≡ or_else (find n own) (given n removed es)

own_of : Result Copying → Entries
own_of (ok st) = st.own
own_of r = empty

or_else-none {ℓ} : {A : Type ℓ} (o : Option A) (b : Bool) → o ≡ or_else o (if b then none else none)
or_else-none none true = refl
or_else-none none false = refl
or_else-none (some a) b = refl

walk-find :
    (copy : String → Option Err) (base : String) (es : Entries) (removed : List String)
    (own : Entries)
    → (st : Copying) (n : String) → IsFlat base es
    → walk copy base es (state removed own) ≡ ok st
    → Carries n es removed own st
unfolding walk own_of
walk-find copy base empty removed own st n flat h =
    ap (λ r. find n (own_of r)) (sym h) ∙ or_else-none (find n own) (any (str_eq n) removed)
walk-find copy base (file m es) removed own st n flat h =
    walk-find copy base es removed own st n flat h
walk-find copy base (dir m sub es) removed own st n flat h =
    let (st1, entered, rest) =
      >>=-eq-ok (enter copy m sub (state removed own)) _ (rw flat.0 at h) in
    elim (enter-cases copy m sub own removed st1 entered) [
      | inl (gone, e) ↦
          walk-find copy base es (remove_first m removed) own st n flat.2
            (ap (walk copy base es) (sym e) ∙ rest)
          ∙ ap (or_else (find n own)) (given-removed m n sub es removed gone flat.1)
      | inr (inl (there, e)) ↦
          walk-find copy base es removed own st n flat.2 (ap (walk copy base es) (sym e) ∙ rest)
          ∙ given-present m n sub es own removed there
      | inr (inr (kept, e)) ↦
          walk-find copy base es removed (add_dir m sub own) st n flat.2
            (ap (walk copy base es) (sym e) ∙ rest)
          ∙ given-copied m n sub es own removed kept flat.1
    ]

same_value : (x y : Entries) → ok x ≡ ok y → x ≡ y
same_value x y h = cc

-- When the directory of the parent commit is on the volume, holds its directories once and none of its
-- own name, and the copy succeeds, then each name leads in the directory of the commit to what it
-- led to there before, else to the parent's directory of that name unless the manifest removes it, and
-- else to nothing.
pub copy_from_parent_commit_dir-find :
    (io : Outside) (vol : Volume) (parent_dir commit_dir : String) (removed : List String)
    → (es own own' : Entries) (n : String) → lookup parent_dir vol ≡ some es
    → IsFlat (io.base_name parent_dir) es
    → copy_from_parent_commit_dir io vol parent_dir commit_dir removed own ≡ ok own'
    → find n own' ≡ or_else (find n own) (if any (str_eq n) removed then none else find_dir n es)
unfolding copy_from_parent_commit_dir
copy_from_parent_commit_dir-find io vol parent_dir commit_dir removed es own own' n there flat h =
    let (es1, found, h1) = >>=-eq-ok (existing io vol parent_dir) _ h in
    let (st, walked, h2) =
      >>=-eq-ok
        (walk (copy_of io parent_dir commit_dir) (io.base_name parent_dir) es1 (state removed own))
        (λ st. ok st.own) h1 in
    let same : es1 ≡ es =
      same_value es1 es (sym found ∙ ap (present (io.not_exist parent_dir)) there) in
    let walked' : walk (copy_of io parent_dir commit_dir) (io.base_name parent_dir) es
          (state removed own)
        ≡ ok st =
      ap
        (λ x.
          walk (copy_of io parent_dir commit_dir) (io.base_name parent_dir) x (state removed own))
        (sym same)
      ∙ walked in
    ap (find n) (sym (same_value st.own own' h2))
    ∙ walk-find (copy_of io parent_dir commit_dir) (io.base_name parent_dir) es removed own st n
        flat walked'
