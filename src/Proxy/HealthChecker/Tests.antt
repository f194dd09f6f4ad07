-- ===== src/Proxy/HealthChecker/Tests.antt =====
-- The theorems on prober.rs at the fleet, of which backend 2 no longer takes connections.
use vortex_proxy.Prelude.{
  ◌≡◌, refl, Bool, true, not, ◌==◌, [], ◌∷◌, some, text_eq, text_gt, sort_by, min_by,
}
use vortex_proxy.Float.Fraction.{fraction_float}
use vortex_proxy.Net.{SocketAddr}
use vortex_proxy.Core.Ewma
use vortex_proxy.Core.Backend
use vortex_proxy.Core.Backend.{is_healthy}
use vortex_proxy.Core.CircuitBreaker
use vortex_proxy.Core.CircuitBreaker.{state}
use vortex_proxy.Core.Fleet.{cells, fleet, table}
use vortex_proxy.Core.Routing.{snapshot, score_gt}
use vortex_proxy.Core.Selector.{is_eligible, select_best_backend}
use vortex_proxy.Proxy.HealthChecker.{probe, probe_all, check_round, health_checker}
use vortex_proxy.Proxy.HealthChecker.Rounds.{health_checker-select}

abbrev but_second : SocketAddr → Bool
but_second addr = not (addr.port == 8082)

abbrev all_connect : SocketAddr → Bool
all_connect addr = true

program : Unit {0}
unfolding Backend.new Backend.with_models Backend.set_healthy is_healthy CircuitBreaker.new state
    Ewma.new Ewma.calculate_score sort_by text_gt text_eq min_by score_gt snapshot is_eligible
    select_best_backend probe probe_all check_round health_checker
program = tt

-- Backend 3 comes back in the first round and is the fastest.
selections :
    (select_best_backend cells (health_checker cells table fleet []) 10 table ≡ some 2)
    × (select_best_backend cells (health_checker cells table fleet (but_second ∷ [])) 10 table
        ≡ some 3)
unfolding program
selections = (refl, refl)

health_checker-select_example : but_second (fleet 3).addr ≡ true
unfolding program
health_checker-select_example =
    health_checker-select cells table fleet (all_connect ∷ []) but_second 10 3 refl
