-- ===== src/Proxy/HealthChecker.antt =====
-- vortex-proxy/src/health_check/prober.rs. `connects` says which addresses take a connection within the
-- timeout of 1.5 s, while one round of probes lasts; nothing else happens to the backends meanwhile.
pub mod Rounds
mod Tests
use vortex_proxy.Prelude.{Bool, true, false, List, [], ◌∷◌, if◌then◌else◌, update}
use vortex_proxy.Net.{SocketAddr}
use vortex_proxy.Core.ArcSwap.{ArcSwap}
use vortex_proxy.Core.Backend.{Backend, SharedBackend, Heap, is_healthy, set_healthy}
use vortex_proxy.Core.Routing.{RoutingTable, snapshot}

abbrev pub differs : Bool → Bool → Bool
differs true true = false
differs true false = true
differs false true = true
differs false false = false

module _ {ℓ} {F : Type ℓ} (connects : SocketAddr → Bool) where
  unfoldable pub probe : Heap F → SharedBackend → Heap F
  unfolding is_healthy set_healthy
  probe h backend =
      if differs (connects (h backend).addr) (is_healthy (h backend))
      then update h backend (set_healthy (h backend) (connects (h backend).addr))
      else h

  unfoldable pub probe_all : Heap F → List SharedBackend → Heap F
  probe_all h [] = h
  probe_all h (backend ∷ backends) = probe_all (probe h backend) backends

-- What is between two ticks: one round over a snapshot of the table.
unfoldable pub check_round {ℓ} :
    (A : ArcSwap (List SharedBackend)) {F : Type ℓ}
    → RoutingTable A
    → Heap F
    → (SocketAddr → Bool)
    → Heap F
unfolding probe_all snapshot
check_round A t h connects = probe_all connects h (snapshot A t)

-- `spawn_health_checker`, for the answers of its rounds.
unfoldable pub health_checker {ℓ} :
    (A : ArcSwap (List SharedBackend)) {F : Type ℓ}
    → RoutingTable A
    → Heap F
    → List (SocketAddr → Bool)
    → Heap F
health_checker A t h [] = h
health_checker A t h (connects ∷ rounds) = health_checker A t (check_round A t h connects) rounds
