-- ===== src/Core/Ewma/Tests.antt =====
-- The unit tests of ewma.rs over exact fractions, and the theorems at concrete inputs.
use vortex_proxy.Prelude.{zero, suc, ℕ, update, ◌≡◌, ◌<◌, ◌∷◌, [], refl, u64_mod}
use vortex_proxy.Float.Fraction.{
  Fraction, whole, half, fraction_float, fraction_laws, fraction_halving,
}
use vortex_proxy.Core.Ewma.{
  PeakEwma, new, get_ewma, next_ewma, observe_latency, observe_all, increment_active, drop_guard,
  calculate_score,
}
use vortex_proxy.Core.Ewma.Bounds.{Between, observe_all-Between}
use vortex_proxy.Core.Ewma.Active.{run_guards}
use vortex_proxy.Core.Ewma.Score.{IsScorable}
use vortex_proxy.Core.Ewma.Concurrent.{
  System, committed, start, load, exchange, retry, Reach, here, later, once, is_committed,
  after_read, after_commit, times, observe_latency-serial,
}

program : Unit {0}
unfolding new get_ewma next_ewma observe_latency observe_all increment_active drop_guard
    calculate_score run_guards
program = tt

abbrev fresh : PeakEwma Fraction
fresh = record { ewma = whole 50; decay_alpha = half; active_requests = 0 }

peak_tracking : get_ewma (observe_latency (new (whole 50) half) (whole 500)) ≡ whole 500
unfolding program
peak_tracking = refl

-- 75 and 62.5, as the program's test has them.
graceful_decay :
    (get_ewma (observe_latency (new (whole 100) half) (whole 50)) ≡ record { num = 300; below = 3 })
    × (get_ewma (observe_all (new (whole 100) half) (whole 50 ∷ whole 50 ∷ []))
        ≡ record { num = 1000; below = 15 })
unfolding program
graceful_decay = (refl, refl)

guard_scores :
    (calculate_score (increment_active (new (whole 10) half)) ≡ whole 22)
    × (calculate_score (drop_guard (increment_active (new (whole 10) half))) ≡ whole 11)
unfolding program
guard_scores = (refl, refl)

observe_all-Between_example :
    Between fraction_laws half fraction_halving
      (whole 20)
      (whole 200)
      (observe_all fresh (whole 200 ∷ whole 20 ∷ [])).ewma
observe_all-Between_example =
    observe_all-Between fraction_laws half fraction_halving (whole 20) (whole 200) fresh
      (whole 200 ∷ whole 20 ∷ []) refl (tt, refl, refl) ((tt, refl, refl), ((tt, refl, refl), tt))

abbrev busy : PeakEwma Fraction
busy = record { ewma = whole 80; decay_alpha = half; active_requests = 3 }

scorable : (e : PeakEwma Fraction) → e.active_requests < u64_mod → IsScorable fraction_laws e
scorable e h = record { latency = tt; latency_factor = tt; load_factor = tt; counted = h }

-- Threads 0 and 1 read together; 0 commits first, and 1 has to read again.
abbrev sample_of : ℕ → Fraction
sample_of zero = whole 100
sample_of (suc i) = whole 60

abbrev both_read : System Fraction
both_read = after_read half sample_of (after_read half sample_of (start (whole 50)) 0) 1

both_read_reached : Reach half sample_of (start (whole 50)) both_read
both_read_reached = later (later here (load 0 refl refl)) (load 1 refl refl)

-- Then 0 commits, the exchange of 1 fails, and 1 commits with what it has read anew.
abbrev raced : System Fraction
raced =
    let zero_done : System Fraction = record {
      ewma = next_ewma half (whole 100) (whole 50);
      pc = update both_read.pc 0 committed;
      log = 0 ∷ [];
    } in
    after_commit half sample_of zero_done 1

raced_reached : Reach half sample_of (start (whole 50)) raced
raced_reached =
    later
      (later (later both_read_reached (exchange 0 (whole 50) refl refl refl))
        (retry 1 (whole 50) refl refl))
      (exchange 1 _ refl refl refl)

observe_latency-serial_example :
    (raced.ewma ≡ next_ewma half (whole 60) (next_ewma half (whole 100) (whole 50)))
    × ((i : ℕ) → times i (1 ∷ 0 ∷ []) ≡ once (is_committed (raced.pc i)))
observe_latency-serial_example = observe_latency-serial half sample_of (whole 50) raced_reached
