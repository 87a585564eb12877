-- ===== src/Stats/Interval.antt =====
-- On statistics in the order of their times, the two searches cut out exactly the interval.
use test_at_scale.Prelude.{
  ℕ, zero, suc, ◌-◌, ◌≤◌, ◌<◌, ◌&&◌, ◌≡◌, refl, ap, ◌∙◌, List, [], ◌∷◌, length, take, drop, ltb,
  leb, le→leb, arith, All, All-mono, if◌then◌else◌, Bool-cases, inl, inr,
}
use test_at_scale.Stats.Search.{search-step}
use test_at_scale.Stats.{ProcStats, not_before, get_procs_for_interval}

abbrev pub IsTimed : List ProcStats → Type 0
IsTimed [] = Unit
IsTimed (p ∷ ps) = All (λ q. p.record_time ≤ q.record_time) ps × IsTimed ps

-- The statistics with start ≤ time < end, by a plain filter.
abbrev pub in_interval : ℕ → ℕ → List ProcStats → List ProcStats
in_interval start end_time [] = []
in_interval start end_time (p ∷ ps) =
    if leb start p.record_time && ltb p.record_time end_time
    then p ∷ in_interval start end_time ps
    else in_interval start end_time ps

-- How many statistics at the front are before a time.
abbrev count_before : ℕ → List ProcStats → ℕ
count_before time [] = 0
count_before time (p ∷ ps) = if ltb p.record_time time then suc (count_before time ps) else 0

abbrev AreFrom : ℕ → List ProcStats → Type 0
AreFrom time = All (λ q. time ≤ q.record_time)

count_before-le-length : (time : ℕ) (ps : List ProcStats) → count_before time ps ≤ length ps
count_before-le-length time [] = omega arith
count_before-le-length time (p ∷ ps) = ground (arith, count_before-le-length time ps)

from_later : {s t : ℕ} (ps : List ProcStats) → s ≤ t → AreFrom t ps → AreFrom s ps
from_later ps h = All-mono ps (λ q k. omega arith)

count_before_none : (time : ℕ) (ps : List ProcStats) → AreFrom time ps → count_before time ps ≡ 0
count_before_none time [] h = refl
count_before_none time (p ∷ ps) h = ground arith

in_interval_none :
    (start end_time : ℕ) (ps : List ProcStats)
    → AreFrom end_time ps
    → in_interval start end_time ps ≡ []
in_interval_none start end_time [] h = refl
in_interval_none start end_time (p ∷ ps) h = ground (arith, in_interval_none start end_time ps h.1)

not_before-step :
    (time : ℕ) (ps : List ProcStats)
    → IsTimed ps
    → (h : ℕ) → h < length ps
    → not_before ps time h ≡ leb (count_before time ps) h
unfolding not_before
not_before-step time [] s h l = absurd (omega arith)
not_before-step time (p ∷ ps) s zero l = ground arith
not_before-step time (p ∷ ps) s (suc h) l =
    let ih = not_before-step time ps s.1 h (omega arith) in
    elim (Bool-cases (ltb p.record_time time)) [
      | inl early ↦ rw early (ground (arith, ih))
      | inr late ↦
          rw late (ground (arith, ih, count_before_none time ps (from_later ps (ground arith) s.0)))
    ]

cut :
    (start end_time : ℕ) (ps : List ProcStats)
    → IsTimed ps
    → take (count_before end_time ps - count_before start ps) (drop (count_before start ps) ps)
      ≡ in_interval start end_time ps
cut start end_time [] s = ground arith
cut start end_time (p ∷ ps) s =
    let ih = cut start end_time ps s.1 in
    elim (Bool-cases (ltb p.record_time end_time)) [
      | inl before_end ↦ elim (Bool-cases (ltb p.record_time start)) [
        | inl early ↦
            let less : suc (count_before end_time ps) - suc (count_before start ps)
                ≡ count_before end_time ps - count_before start ps =
              omega arith in
            rw (before_end, early, less) (ih ∙ ground arith)
        | inr late ↦
            let none_early = count_before_none start ps (from_later ps (ground arith) s.0) in
            let all : suc (count_before end_time ps) - 0 ≡ suc (count_before end_time ps) =
              omega arith in
            let same : count_before end_time ps - 0 ≡ count_before end_time ps = omega arith in
            rw (before_end, late, all)
              (ap (λ r. p ∷ r) (rw (none_early, same) at ih) ∙ ground arith)
      ]
      | inr past ↦
          let none_inside = in_interval_none start end_time ps (from_later ps (ground arith) s.0) in
          let nothing : (k : ℕ) → take (0 - k) (drop k (p ∷ ps)) ≡ [] =
            λ k. let e : 0 - k ≡ 0 = omega arith in rw e in
          rw past (nothing _ ∙ ground (arith, none_inside))
    ]

-- On statistics in the order of their times, the statistics of an interval are exactly those with
-- start ≤ time < end, in their order, also where the end lies before the start.
pub get_procs_for_interval-filter :
    (start end_time : ℕ) (ps : List ProcStats)
    → IsTimed ps
    → get_procs_for_interval start end_time ps ≡ in_interval start end_time ps
unfolding get_procs_for_interval
get_procs_for_interval-filter start end_time ps s =
    rw
      (
        search-step (not_before ps start) (count_before start ps) (length ps)
            (count_before-le-length start ps) (not_before-step start ps s),
        search-step (not_before ps end_time) (count_before end_time ps) (length ps)
            (count_before-le-length end_time ps) (not_before-step end_time ps s),
      )
      (elim (Bool-cases (leb (count_before start ps) (count_before end_time ps))) [
        | inl ordered ↦
            rw (ordered, le→leb _ _ (count_before-le-length end_time ps)) (cut start end_time ps s)
        | inr crossed ↦
            let e : count_before end_time ps - count_before start ps ≡ 0 = ground arith in
            rw crossed (rw e at (cut start end_time ps s))
      ])
