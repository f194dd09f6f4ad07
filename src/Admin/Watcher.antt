-- ===== src/Admin/Watcher.antt =====
-- vortex-admin/src/k8s_watcher.rs: what an applied VortexRoute does to the routing table. `parse` is the
-- parser of socket addresses of the standard library, of which only its failure matters here. `Arc::new`
-- takes the next free pointer of the heap.
pub mod Routes
mod Tests
use vortex_proxy.Prelude.{
  ℕ, ◌+◌, Bool, true, false, Option, none, some, List, [], ◌∷◌, Text, update,
}
use vortex_proxy.Float.{Float}
use vortex_proxy.Net.{SocketAddr, v4}
use vortex_proxy.Core.ArcSwap.{ArcSwap}
use vortex_proxy.Core.Backend.{Backend, SharedBackend, Heap, with_models}
use vortex_proxy.Core.Routing.{RoutingTable, update_backends}

pub record VortexBackendMap : Type 0 where
  pub id : ℕ
  pub address : Text
  pub ai_models : Option (List Text)

-- An event of the watcher's stream: a route with its backends, or an error.
pub data WatchEvent : Type 0 where
  applied : List VortexBackendMap → WatchEvent
  watch_error : WatchEvent

-- The shared objects: the heap with its next free pointer, and the table.
pub record Shared {ℓ} (A : ArcSwap (List SharedBackend)) (F : Type ℓ) : Type ℓ where
  pub heap : Heap F
  pub next : SharedBackend
  pub routing_table : RoutingTable A

module _ {ℓ} (A : ArcSwap (List SharedBackend)) {F : Type ℓ} ⦃f : Float F⦄ (baseline balanced : F)
    (parse : Text → Option SocketAddr) where
  unfoldable pub address_of : Text → SocketAddr
  address_of address = elim (parse address) [
    | none ↦ record { ip = v4 127 0 0 1; port = 80 }
    | some addr ↦ addr
  ]

  abbrev pub models_of : Option (List Text) → List Text
  models_of none = []
  models_of (some models) = models

  unfoldable pub backend_of : VortexBackendMap → Backend F
  unfolding address_of
  backend_of b = with_models baseline balanced b.id (address_of b.address) (models_of b.ai_models)

  -- `Arc::new`
  unfoldable pub arc_new : Shared A F → Backend F → Shared A F × SharedBackend
  arc_new w backend = (record w { heap = update w.heap w.next backend; next = w.next + 1 }, w.next)

  unfoldable pub new_backends : Shared A F → List VortexBackendMap → Shared A F × List SharedBackend
  unfolding arc_new backend_of
  new_backends w [] = (w, [])
  new_backends w (b ∷ bs) =
      let (w', pointer) = arc_new w (backend_of b) in
      let (w'', pointers) = new_backends w' bs in (w'', pointer ∷ pointers)

  -- The table is replaced unless the route has no backends.
  abbrev pub swap : Shared A F → List SharedBackend → Shared A F
  swap w [] = w
  swap w (b ∷ bs) = record w { routing_table = update_backends A w.routing_table (b ∷ bs) }

  unfoldable pub on_event : Shared A F → WatchEvent → Shared A F
  unfolding new_backends
  on_event w watch_error = w
  on_event w (applied backends) = let (w', pointers) = new_backends w backends in swap w' pointers

  -- `start_k8s_watcher`, for the events of its stream.
  unfoldable pub watch : Shared A F → List WatchEvent → Shared A F
  unfolding on_event
  watch w [] = w
  watch w (e ∷ events) = watch (on_event w e) events
