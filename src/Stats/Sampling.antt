-- ===== src/Stats/Sampling.antt =====
-- pkg/procfs/procfs.go: the measurements of a process, until it is gone or the context is done.
-- What the system tells of the process at one moment is a `Sample`; floats are kept as their bits, and
-- their arithmetic is a parameter. A value of 64 bits wraps around.
use test_at_scale.Prelude.{
  ℕ, ◌+◌, ◌*◌, ◌%◌, ◌^◌, ◌≤◌, ◌≡◌, refl, ap, Bool, true, false, List, [], ◌∷◌, map, All, arith,
  subst,
}
use test_at_scale.Errs.{Reply, got, refused}
use test_at_scale.Stats.{ProcStats, get_procs_for_interval}
use test_at_scale.Stats.Interval.{IsTimed, in_interval, get_procs_for_interval-filter}

pub record Memory : Type 0 where
  pub rss : ℕ
  pub swap : ℕ

pub record Mapping : Type 0 where
  pub pss : ℕ
  pub swap : ℕ

pub record Sample : Type 0 where
  pub time : ℕ
  pub percent : Reply ℕ
  pub memory : Reply Memory
  pub mappings : Reply (List Mapping)

-- `math.Min(100, x / NumCPU)`, and a hundred times a part over the whole.
pub record Floats : Type 0 where
  pub per_core : ℕ → ℕ
  pub percentage : ℕ → ℕ → ℕ

-- `Proc`, without the process itself.
pub record Proc : Type 0 where
  pub total_mem : ℕ
  pub use_pss : Bool

-- `procfs.Stats`
pub record Measured : Type 0 where
  pub cpu_percentage : ℕ
  pub mem_percentage : ℕ
  pub mem_shared : ℕ
  pub mem_swapped : ℕ
  pub mem_consumed : ℕ
  pub record_time : ℕ

-- `New`, from what the two lookups answer.
unfoldable pub new : Reply ℕ → Reply ℕ → Bool → Reply Proc
new (refused e) total use_pss = refused e
new (got pid) (refused e) use_pss = refused e
new (got pid) (got total) use_pss = got (record { total_mem = total; use_pss = use_pss })

-- The loop over the mappings.
unfoldable pub sum_mappings : List Mapping → Mapping → Mapping
sum_mappings [] acc = acc
sum_mappings (m ∷ ms) acc =
    sum_mappings ms
      (record { pss = (acc.pss + m.pss) % 2 ^ 64; swap = (acc.swap + m.swap) % 2 ^ 64 })

abbrev pub measured_as : Floats → Proc → ℕ → ℕ → ℕ → ℕ → Measured
measured_as f ps time cpu consumed swapped = record {
  cpu_percentage = f.per_core cpu;
  mem_percentage = f.percentage consumed ps.total_mem;
  mem_shared = 0;
  mem_swapped = swapped;
  mem_consumed = consumed;
  record_time = time;
}

abbrev pub from_mappings : Floats → Proc → ℕ → ℕ → Reply (List Mapping) → Reply Measured
from_mappings f ps time cpu (refused e) = refused e
from_mappings f ps time cpu (got ms) =
    let total = sum_mappings ms (record { pss = 0; swap = 0 }) in
    got (measured_as f ps time cpu (total.pss * 1024 % 2 ^ 64) total.swap)

abbrev pub from_memory : Floats → Proc → Sample → ℕ → Reply Memory → Bool → Reply Measured
from_memory f ps s cpu (refused e) use_pss = refused e
from_memory f ps s cpu (got m) false = got (measured_as f ps s.time cpu m.rss m.swap)
from_memory f ps s cpu (got m) true = from_mappings f ps s.time cpu s.mappings

abbrev pub from_percent : Floats → Proc → Sample → Reply ℕ → Reply Measured
from_percent f ps s (refused e) = refused e
from_percent f ps s (got cpu) = from_memory f ps s cpu s.memory ps.use_pss

-- `GetStats`
unfoldable pub get_stats : Floats → Proc → Sample → Reply Measured
unfolding sum_mappings
get_stats f ps s = from_percent f ps s s.percent

-- What the select of the loop finds: a tick, with the sample that is then taken, or the context done.
pub data Tick : Type 0 where
  ticked : Sample → Tick
  context_done : Tick

abbrev pub kept : Reply Measured → List Measured → List Measured
kept (refused e) rest = []
kept (got s) rest = s ∷ rest

-- The loop of `GetStatsInIntervalWithContext`, and the first measurement before it.
unfoldable pub tick_all : Floats → Proc → List Tick → List Measured
tick_all f ps [] = []
tick_all f ps (context_done ∷ ticks) = []
tick_all f ps (ticked s ∷ ticks) = kept (get_stats f ps s) (tick_all f ps ticks)

unfoldable pub get_stats_in_interval : Floats → Proc → Sample → List Tick → List Measured
get_stats_in_interval f ps first ticks = kept (get_stats f ps first) (tick_all f ps ticks)

-- The fields that pkg/service/teststats reads.
abbrev pub proc_stats : Measured → ProcStats
proc_stats m = record {
  cpu_percentage = m.cpu_percentage;
  mem_consumed = m.mem_consumed;
  record_time = m.record_time;
}

-- The clock of the samples does not go back.
abbrev pub sample_times : List Tick → List ℕ
sample_times [] = []
sample_times (context_done ∷ ticks) = []
sample_times (ticked s ∷ ticks) = s.time ∷ sample_times ticks

abbrev pub IsClock : List ℕ → Type 0
IsClock [] = Unit {0}
IsClock (t ∷ ts) = All (λ u. t ≤ u) ts × IsClock ts

abbrev time_or : ℕ → Reply Measured → ℕ
time_or t (refused e) = t
time_or t (got m) = m.record_time

from_memory_time :
    (f : Floats) (ps : Proc) (s : Sample) (cpu : ℕ) (r : Reply Memory) (use_pss : Bool)
    (m : Measured)
    → from_memory f ps s cpu r use_pss ≡ got m
    → s.time ≡ m.record_time
from_memory_time f ps s cpu (refused e) use_pss m h = cc
from_memory_time f ps s cpu (got mem) false m h = ap (time_or 0) h
from_memory_time f ps s cpu (got mem) true m h = mapped s.mappings h
  where
    mapped :
        (r : Reply (List Mapping))
        → from_mappings f ps s.time cpu r ≡ got m
        → s.time ≡ m.record_time
    mapped (refused e) h' = cc
    mapped (got ms) h' = ap (time_or 0) h'

get_stats_time :
    (f : Floats) (ps : Proc) (s : Sample) (m : Measured)
    → get_stats f ps s ≡ got m
    → s.time ≡ m.record_time
unfolding get_stats
get_stats_time f ps s m h = percent_known s.percent h
  where
    percent_known : (r : Reply ℕ) → from_percent f ps s r ≡ got m → s.time ≡ m.record_time
    percent_known (refused e) h' = cc
    percent_known (got cpu) h' = from_memory_time f ps s cpu s.memory ps.use_pss m h'

-- Measurements that begin at a time, or later.
kept-from :
    (t : ℕ) (f : Floats) (ps : Proc) (s : Sample) (rest : List Measured) (r : Reply Measured)
    → get_stats f ps s ≡ r
    → t ≤ s.time
    → All (λ q. t ≤ q.record_time) (map proc_stats rest)
    → All (λ q. t ≤ q.record_time) (map proc_stats (kept r rest))
kept-from t f ps s rest (refused e) h le all = tt
kept-from t f ps s rest (got m) h le all = (omega (arith, get_stats_time f ps s m h), all)

tick_all-from :
    (t : ℕ) (f : Floats) (ps : Proc) (ticks : List Tick)
    → All (λ u. t ≤ u) (sample_times ticks)
    → All (λ q. t ≤ q.record_time) (map proc_stats (tick_all f ps ticks))
unfolding tick_all
tick_all-from t f ps [] all = tt
tick_all-from t f ps (context_done ∷ ticks) all = tt
tick_all-from t f ps (ticked s ∷ ticks) all =
    kept-from t f ps s (tick_all f ps ticks) (get_stats f ps s) refl all.0
      (tick_all-from t f ps ticks all.1)

kept-IsTimed :
    (f : Floats) (ps : Proc) (s : Sample) (rest : List Measured) (r : Reply Measured)
    → get_stats f ps s ≡ r
    → All (λ q. s.time ≤ q.record_time) (map proc_stats rest)
    → IsTimed (map proc_stats rest)
    → IsTimed (map proc_stats (kept r rest))
kept-IsTimed f ps s rest (refused e) h all timed = tt
kept-IsTimed f ps s rest (got m) h all timed = (
  subst (λ t. All (λ q. t ≤ q.record_time) (map proc_stats rest)) (get_stats_time f ps s m h) all,
  timed,
)

tick_all-IsTimed :
    (f : Floats) (ps : Proc) (ticks : List Tick)
    → IsClock (sample_times ticks)
    → IsTimed (map proc_stats (tick_all f ps ticks))
unfolding tick_all
tick_all-IsTimed f ps [] clock = tt
tick_all-IsTimed f ps (context_done ∷ ticks) clock = tt
tick_all-IsTimed f ps (ticked s ∷ ticks) clock =
    kept-IsTimed f ps s (tick_all f ps ticks) (get_stats f ps s) refl
      (tick_all-from s.time f ps ticks clock.0) (tick_all-IsTimed f ps ticks clock.1)

-- As long as the clock does not go back, the statistics that a test is given are exactly those of the
-- sampled process with start ≤ time < end, in the order in which they were taken.
pub get_stats_in_interval-filter :
    (f : Floats) (ps : Proc) (first : Sample) (ticks : List Tick) (start end_time : ℕ)
    → IsClock (first.time ∷ sample_times ticks)
    → let stats = map proc_stats (get_stats_in_interval f ps first ticks) in
      get_procs_for_interval start end_time stats ≡ in_interval start end_time stats
unfolding get_stats_in_interval
get_stats_in_interval-filter f ps first ticks start end_time clock =
    get_procs_for_interval-filter start end_time
      (map proc_stats (get_stats_in_interval f ps first ticks))
      (kept-IsTimed f ps first (tick_all f ps ticks) (get_stats f ps first) refl
        (tick_all-from first.time f ps ticks clock.0) (tick_all-IsTimed f ps ticks clock.1))
