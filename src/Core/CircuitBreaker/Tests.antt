-- ===== src/Core/CircuitBreaker/Tests.antt =====
-- The unit tests of circuit_breaker.rs, and the theorems at concrete inputs.
use vortex_proxy.Prelude.{◌≡◌, ◌↔◌, ◌<◌, ◌%◌, refl, u64_mod, false, true, List, [], ◌∷◌, arith}
use vortex_proxy.Core.CircuitBreaker.{
  closed, open_circuit, half_open, CircuitBreaker, new, state, record_success, record_failure,
  failure_count, is_open, failure_threshold,
}
use vortex_proxy.Core.CircuitBreaker.History.{
  Outcome, failure, after, spec_state, streak, state-after,
}
use vortex_proxy.Core.CircuitBreaker.Concurrent.{
  System, start, idle, store_failures, fetch_add, raced, Reach, here, later, succeed, fail,
  closed_after_race, trip_lost,
}

program : Unit {0}
unfolding new state record_success record_failure failure_count is_open after
program = tt

abbrev tripped : CircuitBreaker
tripped = record { failures = 5; last_failure_time = 104 }

abbrev five_failures : List Outcome
five_failures = failure 104 ∷ failure 103 ∷ failure 102 ∷ failure 101 ∷ failure 100 ∷ []

initial_state_is_closed :
    (state new 100 ≡ closed) × (failure_count new ≡ 0) × (is_open new 100 ≡ false)
unfolding program
initial_state_is_closed = (refl, refl, refl)

trips_after_threshold :
    (after five_failures ≡ tripped)
    × (state (after (failure 103 ∷ failure 102 ∷ failure 101 ∷ failure 100 ∷ [])) 104 ≡ closed)
    × (state tripped 104 ≡ open_circuit)
    × (is_open tripped 134 ≡ true)
    × (state tripped 135 ≡ half_open)
unfolding program
trips_after_threshold = (refl, refl, refl, refl, refl)

resets_on_success :
    (state (record_success tripped) 104 ≡ closed) × (failure_count (record_success tripped) ≡ 0)
unfolding program
resets_on_success = (refl, refl)

state-after_example : state (after five_failures) 120 ≡ spec_state five_failures 120
state-after_example = state-after five_failures 120 (omega arith) (omega arith)

-- Thread 0 is between its two stores, and thread 1 has counted a failure since.
abbrev interleaved : System
interleaved = fetch_add (store_failures start 0) 1 100

interleaved-Reach : Reach start interleaved
interleaved-Reach = later (later here (succeed 0 refl refl)) (fail 1 100 refl refl)

closed_after_race_example :
    (state interleaved.breaker 100 ≡ closed)
    ↔ (streak interleaved.log % u64_mod < failure_threshold)
closed_after_race_example = closed_after_race 100 interleaved-Reach

trip_lost_example :
    Reach start (raced 0 1 100 start)
    × ((raced 0 1 100 start).pc 0 ≡ idle)
    × ((raced 0 1 100 start).pc 1 ≡ idle)
    × (state (raced 0 1 100 start).breaker 100 ≡ half_open)
    × (state (after (raced 0 1 100 start).log) 100 ≡ open_circuit)
trip_lost_example = trip_lost 0 1 100 (omega arith) start refl refl (omega arith) (omega arith)
