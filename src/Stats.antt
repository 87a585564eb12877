-- ===== src/Stats.antt =====
-- pkg/service/teststats/teststats.go: the process statistics that belong to each test.
-- Times are numbers of nanoseconds after the zero time. A duration is a number of milliseconds that
-- is not negative and small enough not to overflow 64 bits. A float is kept as its bits.
-- `captureTestStats` takes what the select of the goroutine finds in the input channel.
mod Search
pub mod Interval
pub mod Sampling
pub mod Tests
unfoldable pub use Search.{search}
use test_at_scale.Prelude.{
  ℕ, ◌+◌, ◌-◌, ◌*◌, String, Bool, true, false, ◌&&◌, not, Option, none, some, List, [], ◌∷◌, ◌++◌,
  map, length, get_elem?, take, drop, ltb, leb, ◌==◌, if◌then◌else◌,
}

-- `procfs.Stats`
pub record ProcStats : Type 0 where
  pub cpu_percentage : ℕ
  pub mem_consumed : ℕ
  pub record_time : ℕ

-- `core.TestProcessStats`
pub record TestProcessStats : Type 0 where
  pub cpu : ℕ
  pub memory : ℕ
  pub storage : ℕ
  pub record_time : ℕ

pub record TestPayload : Type 0 where
  pub test_id : String
  pub duration : ℕ
  pub start_time : ℕ
  pub end_time : ℕ
  pub stats : List TestProcessStats

pub record TestSuitePayload : Type 0 where
  pub suite_id : String
  pub duration : ℕ
  pub start_time : ℕ
  pub end_time : ℕ
  pub stats : List TestProcessStats

pub record ExecutionResult : Type 0 where
  pub test_payload : List TestPayload
  pub test_suite_payload : List TestSuitePayload

-- `!processStats[i].RecordTime.Before(time)`. The search asks for positions in the list alone; the
-- answer at any other is not used.
abbrev at_or_after : ℕ → Option ProcStats → Bool
at_or_after time none = true
at_or_after time (some p) = not (ltb p.record_time time)

unfoldable pub not_before : List ProcStats → ℕ → ℕ → Bool
not_before stats time i = at_or_after time (get_elem? stats i)

unfoldable pub get_procs_for_interval : ℕ → ℕ → List ProcStats → List ProcStats
get_procs_for_interval start end_time stats =
    let n = length stats in
    let left = search n (not_before stats start) in
    let right = search n (not_before stats end_time) in
    if leb left right && leb right n then take (right - left) (drop left stats) else []

abbrev pub of_proc : ProcStats → TestProcessStats
of_proc p = record {
  cpu = p.cpu_percentage;
  memory = p.mem_consumed;
  storage = 0;
  record_time = p.record_time;
}

abbrev pub millisecond : ℕ
millisecond = 1000000

-- One round of the loop of `appendStatsToTests`.
unfoldable pub with_stats : List ProcStats → TestPayload → TestPayload
with_stats procs t =
    if t.start_time == 0
    then t
    else let end_time = t.start_time + t.duration * millisecond in
      record t {
        end_time = end_time;
        stats = t.stats ++ map of_proc (get_procs_for_interval t.start_time end_time procs);
      }

unfoldable pub append_stats_to_tests : List TestPayload → List ProcStats → List TestPayload
append_stats_to_tests tests procs = map (with_stats procs) tests

-- One round of the loop of `appendStatsToTestSuites`.
unfoldable pub suite_with_stats : List ProcStats → TestSuitePayload → TestSuitePayload
suite_with_stats procs t =
    if t.start_time == 0
    then t
    else let end_time = t.start_time + t.duration * millisecond in
      record t {
        end_time = end_time;
        stats = t.stats ++ map of_proc (get_procs_for_interval t.start_time end_time procs);
      }

unfoldable pub append_stats_to_suites :
    List TestSuitePayload → List ProcStats → List TestSuitePayload
append_stats_to_suites suites procs = map (suite_with_stats procs) suites

abbrev collected : List ProcStats → ExecutionResult → ExecutionResult
collected procs r = record {
  test_payload = append_stats_to_tests r.test_payload procs;
  test_suite_payload = append_stats_to_suites r.test_suite_payload procs;
}

-- What the goroutine of `CaptureTestStats` sends on: the results that came in, or nil.
unfoldable pub capture_test_stats :
    Bool → List ProcStats → Option (List ExecutionResult) → Option (List ExecutionResult)
capture_test_stats collect_stats procs none = none
capture_test_stats collect_stats procs (some results) =
    some (if collect_stats then map (collected procs) results else results)
