-- ===== src/Admin/Watcher/Tests.antt =====
-- The watcher on the fleet, with a route of two backends, one of which has an address that does not
-- parse.
use vortex_proxy.Prelude.{
  ◌≡◌, refl, arith, Option, none, some, [], ◌∷◌, Text, bytes, text_eq, text_gt, sort_by,
  if◌then◌else◌,
}
use vortex_proxy.Float.Fraction.{Fraction, whole, half, fraction_float}
use vortex_proxy.Net.{SocketAddr}
use vortex_proxy.Core.Backend
use vortex_proxy.Core.CircuitBreaker
use vortex_proxy.Core.Ewma
use vortex_proxy.Core.Fleet.{cells, fleet, table, local}
use vortex_proxy.Core.Routing.{snapshot, update_backends}
use vortex_proxy.Admin.Watcher.{
  VortexBackendMap, applied, watch_error, Shared, address_of, backend_of, arc_new, new_backends,
  on_event, watch,
}
use vortex_proxy.Admin.Watcher.Routes.{table_of, described, watch-described}

abbrev shared : Shared cells Fraction
shared = record { heap = fleet; next = 4; routing_table = table }

abbrev parse : Text → Option SocketAddr
parse text = if text_eq text (bytes "127.0.0.1:9000") then some (local 9000) else none

abbrev good : VortexBackendMap
good = record { id = 1; address = bytes "127.0.0.1:9000"; ai_models = none }

abbrev bad : VortexBackendMap
bad = record { id = 2; address = bytes "backend.internal"; ai_models = some [] }

program : Unit {0}
unfolding Backend.new Backend.with_models CircuitBreaker.new Ewma.new sort_by text_gt text_eq
    snapshot update_backends address_of backend_of arc_new new_backends on_event watch
program = tt

-- A route without backends is passed over; an address that does not parse becomes port 80 of this host.
reloads :
    let w =
      watch cells
        (whole 50)
        half
        parse
        shared
        (watch_error ∷ applied (good ∷ bad ∷ []) ∷ applied [] ∷ []) in
    (snapshot cells w.routing_table ≡ 4 ∷ 5 ∷ [])
    × ((w.heap 4).addr ≡ local 9000)
    × ((w.heap 5).addr ≡ local 80)
unfolding program
reloads = (refl, refl, refl)

watch-described_example :
    (table_of cells
        (whole 50)
        half
        parse
        (watch cells (whole 50) half parse shared (applied (good ∷ bad ∷ []) ∷ watch_error ∷ []))
      ≡ described cells
          (whole 50)
          half
          parse
          (table_of cells (whole 50) half parse shared)
          (applied (good ∷ bad ∷ []) ∷ watch_error ∷ []))
    × ((watch cells
            (whole 50)
            half
            parse
            shared
            (applied (good ∷ bad ∷ []) ∷ watch_error ∷ [])).heap
          2
        ≡ fleet 2)
watch-described_example =
    watch-described cells (whole 50) half parse shared
      (applied (good ∷ bad ∷ []) ∷ watch_error ∷ []) 2 (omega arith)
