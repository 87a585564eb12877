-- ===== src/Stats/Tests.antt =====
-- An interval of three measurements.
use test_at_scale.Prelude.{ℕ, ◌*◌, ◌/◌, ◌^◌, ◌-◌, ◌≡◌, refl, false, List, [], ◌∷◌, map, arith}
use test_at_scale.Errs.{got, refused, error}
use test_at_scale.Stats.Sampling.{
  Floats, Proc, Sample, Tick, ticked, get_stats, tick_all, get_stats_in_interval, sum_mappings,
  proc_stats, get_stats_in_interval-filter,
}
use test_at_scale.Stats.{ProcStats, get_procs_for_interval}
use test_at_scale.Stats.Interval.{in_interval}

abbrev at_time : ℕ → ProcStats
at_time t = record { cpu_percentage = 1; mem_consumed = 1; record_time = t }

abbrev measured : List ProcStats
measured = at_time 2 ∷ at_time 5 ∷ at_time 9 ∷ []

abbrev floats : Floats
floats = record { per_core = λ x. x; percentage = λ part whole. part * 100 / whole }

abbrev proc : Proc
proc = record { total_mem = 1000; use_pss = false }

abbrev sample : ℕ → Sample
sample t = record {
  time = t;
  percent = got 1;
  memory = got (record { rss = 10; swap = 0 });
  mappings = got [];
}

-- The process is gone at the third tick.
abbrev ticks : List Tick
ticks =
    ticked (sample 5)
    ∷ ticked (sample 9)
    ∷ ticked (record (sample 12) { percent = refused (error "no process") })
    ∷ []

three_measurements :
    map (λ m. m.record_time) (get_stats_in_interval floats proc (sample 2) ticks) ≡ 2 ∷ 5 ∷ 9 ∷ []
unfolding get_stats_in_interval tick_all get_stats
three_measurements = refl

shared_pages_are_counted_once :
    sum_mappings
      (record { pss = 3; swap = 1 } ∷ record { pss = 2 ^ 64 - 1; swap = 0 } ∷ [])
      (record { pss = 0; swap = 0 })
    ≡ record { pss = 2; swap = 1 }
unfolding sum_mappings
shared_pages_are_counted_once = refl

get_stats_in_interval-filter_example :
    get_procs_for_interval 3 9 (map proc_stats (get_stats_in_interval floats proc (sample 2) ticks))
    ≡ in_interval 3 9 (map proc_stats (get_stats_in_interval floats proc (sample 2) ticks))
get_stats_in_interval-filter_example =
    get_stats_in_interval-filter floats proc (sample 2) ticks 3 9 (
      (omega arith, (omega arith, (omega arith, tt))),
      ((omega arith, (omega arith, tt)), ((omega arith, tt), (tt, tt))),
    )
