-- ===== src/Server/Channels.antt =====
-- What becomes of the results and the lists of tests that pkg/api accepts.
use mathlib.Core.List.{append-nil, append_assoc}
use mathlib.Core.List.Perm
use mathlib.Core.List.{Perm, perm_middle}
use test_at_scale.Prelude.{String, sym, subst, List, [], ◌∷◌, ◌++◌}
use test_at_scale.Errs.{Reply, got, refused}
use test_at_scale.Server.{
  Channel, Server, Binding, post, Route, health, results_route, test_list_route, unknown, route,
  handle_route, handle,
}

abbrev pub accepted : {A : Type 0} → Reply A → List A
accepted (refused e) = []
accepted (got a) = a ∷ []

abbrev pub results_in : {R D : Type 0} → Binding R D → Route → String → List R
results_in b results_route body = accepted (b.results_of body)
results_in b _ body = []

abbrev pub discoveries_in : {R D : Type 0} → Binding R D → Route → String → List D
discoveries_in b test_list_route body = accepted (b.discovery_of body)
discoveries_in b _ body = []

-- One request, or one receive of a service, which may take any of the values that wait: the requests'
-- accepted results and lists of tests are noted.
pub data Step {R D : Type 0} (b : Binding R D)
    : Server R D → List R → List D → Server R D → Type 0 where
  requested :
      {s : Server R D} (method path body : String)
      → Step b s
          (results_in b (route method path) body)
          (discoveries_in b (route method path) body)
          (handle b method path body s).0
  takes_results :
      (before after : List R) {received : List R} {discoveries : Channel D} (r : R)
      → Step b
          (record {
            results = record { waiting = before ++ r ∷ after; received = received };
            discoveries = discoveries;
          })
          []
          []
          (record {
            results = record { waiting = before ++ after; received = received ++ r ∷ [] };
            discoveries = discoveries;
          })
  takes_discovery :
      (before after : List D) {received : List D} {results : Channel R} (d : D)
      → Step b
          (record {
            results = results;
            discoveries = record { waiting = before ++ d ∷ after; received = received };
          })
          []
          []
          (record {
            results = results;
            discoveries = record { waiting = before ++ after; received = received ++ d ∷ [] };
          })

pub data Steps {R D : Type 0} (b : Binding R D)
    : Server R D → List R → List D → Server R D → Type 0 where
  done : {s : Server R D} → Steps b s [] [] s
  then_ :
      {s t u : Server R D} {rs rs' : List R} {ds ds' : List D}
      → Step b s rs ds t
      → Steps b t rs' ds' u
      → Steps b s (rs ++ rs') (ds ++ ds') u

-- All that has come into a channel.
abbrev pub contents : {A : Type 0} → Channel A → List A
contents c = c.received ++ c.waiting

post-contents :
    {A : Type 0} (encode : String → String) (r : Reply A) (c : Channel A)
    → Perm (contents (post encode r c).0) (contents c ++ accepted r)
unfolding post
post-contents encode (refused e) c =
    subst (λ l. Perm (contents c) l) (sym (append-nil (contents c))) (Perm.refl (contents c))
post-contents encode (got a) c =
    subst (λ l. Perm l (contents c ++ a ∷ [])) (append_assoc c.received c.waiting (a ∷ []))
      (Perm.refl (contents c ++ a ∷ []))

with_none : {A : Type 0} {xs ys : List A} → Perm xs ys → Perm xs (ys ++ [])
with_none {xs = xs} {ys = ys} p = subst (λ l. Perm xs l) (sym (append-nil ys)) p

moved :
    {A : Type 0} (before after received : List A) (a : A)
    → Perm ((received ++ a ∷ []) ++ (before ++ after)) (received ++ (before ++ a ∷ after))
moved before after received a =
    subst (λ l. Perm l (received ++ (before ++ a ∷ after)))
      (sym (append_assoc received (a ∷ []) (before ++ after)))
      (Perm.append_left received (Perm.symm (perm_middle before after)))

-- What a channel of a later server has seen, beside an earlier one and what came in between.
abbrev pub Gains : {A : Type 0} → Channel A → List A → Channel A → Type 0
Gains c added d = Perm (contents d) (contents c ++ added)

Gains-refl : {A : Type 0} (c : Channel A) → Gains c [] c
Gains-refl c = with_none (Perm.refl (contents c))

handle_route-Gains :
    {R D : Type 0} (b : Binding R D) (r : Route) (body : String) (s : Server R D)
    → Gains s.results (results_in b r body) (handle_route b r body s).0.results
      × Gains s.discoveries (discoveries_in b r body) (handle_route b r body s).0.discoveries
unfolding handle_route
handle_route-Gains b health body s = (Gains-refl s.results, Gains-refl s.discoveries)
handle_route-Gains b unknown body s = (Gains-refl s.results, Gains-refl s.discoveries)
handle_route-Gains b results_route body s =
    (post-contents b.message_body (b.results_of body) s.results, Gains-refl s.discoveries)
handle_route-Gains b test_list_route body s =
    (Gains-refl s.results, post-contents b.message_body (b.discovery_of body) s.discoveries)

Step-Gains :
    {R D : Type 0} {b : Binding R D} {s t : Server R D} {rs : List R} {ds : List D}
    → Step b s rs ds t
    → Gains s.results rs t.results × Gains s.discoveries ds t.discoveries
unfolding handle
Step-Gains {b = b} (requested {s} method path body) =
    handle_route-Gains b (route method path) body s
Step-Gains (takes_results before after {received} {discoveries} r) =
    (with_none (moved before after received r), Gains-refl discoveries)
Step-Gains (takes_discovery before after {received} {results} d) =
    (Gains-refl results, with_none (moved before after received d))

Gains-trans :
    {A : Type 0} (c d e : Channel A) (xs ys : List A)
    → Gains c xs d
    → Gains d ys e
    → Gains c (xs ++ ys) e
Gains-trans c d e xs ys first second =
    subst (λ l. Perm (contents e) l) (append_assoc (contents c) xs ys)
      (Perm.trans second (Perm.append_right ys first))

-- Whatever requests the server of nucleus answers, and in whatever order its services receive from
-- the two channels, no result and no list of tests that it accepted is lost or doubled: what was
-- received and what still waits is, up to the order, what there was before with what was accepted
-- since.
pub Steps-Gains :
    {R D : Type 0} {b : Binding R D} {s t : Server R D} {rs : List R} {ds : List D}
    → Steps b s rs ds t
    → Gains s.results rs t.results × Gains s.discoveries ds t.discoveries
Steps-Gains {s = s} done = (Gains-refl s.results, Gains-refl s.discoveries)
Steps-Gains (then_ {s} {t} {u} {rs} {rs'} {ds} {ds'} step rest) =
    let (r, d) = Step-Gains step in
    let (r', d') = Steps-Gains rest in
    (
      Gains-trans s.results t.results u.results rs rs' r r',
      Gains-trans s.discoveries t.discoveries u.discoveries ds ds' d d',
    )
