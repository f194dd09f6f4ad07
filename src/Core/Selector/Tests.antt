-- ===== src/Core/Selector/Tests.antt =====
-- The unit tests of selector.rs, and the theorems at a concrete heap.
use vortex_proxy.Prelude.{
  ◌≡◌, ◌↔◌, refl, true, [], ◌∷◌, some, none, sort_by, min_by, update, filter, text_gt, text_eq,
}
use mathlib.Core.List.{Perm}
use vortex_proxy.Float.Fraction.{Fraction, fraction_float, fraction_laws}
use vortex_proxy.Core.Ewma
use vortex_proxy.Core.Backend
use vortex_proxy.Core.Backend.{SharedBackend, Heap, is_healthy}
use vortex_proxy.Core.CircuitBreaker
use vortex_proxy.Core.CircuitBreaker.{state, open_circuit}
use vortex_proxy.Core.Fleet.{cells, fleet, table}
use vortex_proxy.Core.Routing.{RoutingTable, snapshot, score_gt, get_best_backend}
use vortex_proxy.Core.Routing.Candidates.{IsChoice}
use vortex_proxy.Core.Selector.{is_eligible, select_best_backend, select_healthy_backends}
use vortex_proxy.Core.Selector.Choice.{
  IsUsable, IsAscending, select_best_backend-IsChoice, select_healthy_backends-sorted,
}
use vortex_proxy.Core.Selector.Agreement.{get_best_backend-bypass}

program : Unit {0}
unfolding Backend.new Backend.with_models Backend.set_healthy is_healthy CircuitBreaker.new state
    Ewma.new Ewma.calculate_score sort_by text_gt text_eq min_by score_gt snapshot is_eligible
    select_best_backend select_healthy_backends get_best_backend
program = tt

-- The fleet with the circuit of backend 2 tripped at 1000 s.
abbrev tripped : Heap Fraction
tripped =
    update fleet 2
      (record (fleet 2) { circuit_breaker = record { failures = 5; last_failure_time = 1000 } })

lowest_score : select_best_backend cells fleet 1010 table ≡ some 2
unfolding program
lowest_score = refl

open_circuit_is_skipped :
    (select_best_backend cells tripped 1010 table ≡ some 1)
    × (select_best_backend cells tripped 1031 table ≡ some 2)
unfolding program
open_circuit_is_skipped = (refl, refl)

filters_and_sorts : select_healthy_backends cells fleet 1010 table ≡ 2 ∷ 1 ∷ []
unfolding program
filters_and_sorts = refl

select_best_backend-IsChoice_example :
    IsChoice fraction_laws tripped
      (IsUsable tripped 1010)
      (snapshot cells table)
      (select_best_backend cells tripped 1010 table)
unfolding snapshot
select_best_backend-IsChoice_example =
    select_best_backend-IsChoice cells tripped 1010 fraction_laws table (tt, (tt, (tt, tt)))

select_healthy_backends-sorted_example :
    Perm
      (select_healthy_backends cells tripped 1010 table)
      (filter (is_eligible tripped 1010) (snapshot cells table))
    × IsAscending fraction_laws tripped (select_healthy_backends cells tripped 1010 table)
    × ((b : SharedBackend) → (is_eligible tripped 1010 b ≡ true) ↔ IsUsable tripped 1010 b)
unfolding snapshot
select_healthy_backends-sorted_example =
    select_healthy_backends-sorted cells tripped 1010 fraction_laws table (tt, (tt, (tt, tt)))

abbrev lone : RoutingTable cells
lone = record { backends = 2 ∷ [] }

get_best_backend-bypass_example :
    (get_best_backend cells tripped lone ≡ some 2)
    × (select_best_backend cells tripped 1010 lone ≡ none)
unfolding snapshot
get_best_backend-bypass_example =
    get_best_backend-bypass cells tripped 1010 lone 2 refl (unfold program in refl)
      (unfold program in refl)
