-- ===== src/Admin/AdminServer/Tests.antt =====
-- The admin calls on the fleet.
use vortex_proxy.Prelude.{
  ◌≡◌, refl, false, [], ◌∷◌, bytes, some, min_by, text_gt, sort_by, ◌+◌, ◌^◌,
}
use vortex_proxy.Float.Fraction.{Fraction, whole, half, fraction_float}
use vortex_proxy.Core.Backend
use vortex_proxy.Core.Backend.{is_healthy}
use vortex_proxy.Core.CircuitBreaker
use vortex_proxy.Core.CircuitBreaker.{state}
use vortex_proxy.Core.Ewma
use vortex_proxy.Core.Fleet.{cells, fleet, table}
use vortex_proxy.Core.Routing.{snapshot, score_gt, update_backends}
use vortex_proxy.Core.Selector.{is_eligible, select_best_backend}
use vortex_proxy.Admin.AdminServer.{
  AdminServer, reply, get_stats, update_wasm_plugin, reload_config,
}

abbrev admin : AdminServer cells Fraction
admin = record {
  shared = record { heap = fleet; next = 4; routing_table = table };
  active_connections = 2 ^ 32 + 7;
  active_wasm_payload = 0 ∷ [];
  poisoned = false;
}

program : Unit {0}
unfolding Backend.new Backend.with_models Backend.set_healthy is_healthy CircuitBreaker.new state
    Ewma.new Ewma.calculate_score sort_by text_gt min_by score_gt snapshot update_backends
    is_eligible select_best_backend get_stats update_wasm_plugin reload_config
program = tt

-- The count of connections is cut to 32 bits, and an empty payload is refused.
calls :
    (get_stats cells admin ≡ 7)
    × ((update_wasm_plugin cells admin []).1 ≡ reply false)
    × ((update_wasm_plugin cells admin (1 ∷ 2 ∷ [])).0.active_wasm_payload ≡ 1 ∷ 2 ∷ [])
unfolding program
calls = (refl, refl, refl)

-- Whatever the path, the table is the backend 99 after a reload.
after_reload :
    let w = (reload_config cells (whole 50) half admin (bytes "/etc/vortex.yaml")).0.shared in
    select_best_backend cells w.heap 10 w.routing_table ≡ some 4
unfolding program
after_reload = refl
