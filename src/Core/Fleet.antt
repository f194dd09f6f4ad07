-- ===== src/Core/Fleet.antt =====
-- A small fleet for the tests: backend 1 answers in 200 ms, backend 2 in 20 ms, and backend 3 is down.
use vortex_proxy.Prelude.{Text, ◌+◌, ℕ, false, List, [], ◌∷◌, bytes, if◌then◌else◌, ◌==◌}
use vortex_proxy.Float.Fraction.{Fraction, whole, half, fraction_float}
use vortex_proxy.Net.{SocketAddr, v4}
use vortex_proxy.Core.ArcSwap.{ArcSwap, plain}
use vortex_proxy.Core.Backend
use vortex_proxy.Core.Backend.{Backend, SharedBackend, Heap}
use vortex_proxy.Core.Routing.{RoutingTable}

abbrev pub cells : ArcSwap (List SharedBackend)
cells = plain (List SharedBackend)

abbrev pub local : ℕ → SocketAddr
local port = record { ip = v4 127 0 0 1; port = port }

abbrev pub at_latency : ℕ → ℕ → List Text → Backend Fraction
at_latency id ms models =
    record (Backend.with_models (whole 50) half id (local (8080 + id)) models) {
      ewma = record { ewma = whole ms; decay_alpha = half; active_requests = 0 };
    }

abbrev pub fleet : Heap Fraction
fleet p =
    if p == 1
    then at_latency 1 200 (bytes "gpt-4" ∷ [])
    else (if p == 2
        then at_latency 2 20 (bytes "llama" ∷ bytes "gpt-4" ∷ [])
        else Backend.set_healthy (at_latency 3 10 (bytes "claude" ∷ [])) false)

abbrev pub table : RoutingTable cells
table = record { backends = 1 ∷ 2 ∷ 3 ∷ [] }
