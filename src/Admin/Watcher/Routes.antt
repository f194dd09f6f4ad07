-- ===== src/Admin/Watcher/Routes.antt =====
-- The table and the heap after the events of k8s_watcher.rs.
use vortex_proxy.Prelude.{
  ◌+◌, ◌<◌, ◌≡◌, refl, ap, ◌∙◌, Option, none, some, true, sort_by, text_gt, Option-cases, inl, inr,
  List, [], ◌∷◌, length, map, Text, arith,
}
use vortex_proxy.Float.{Float}
use vortex_proxy.Net.{SocketAddr, v4}
use vortex_proxy.Core.ArcSwap.{ArcSwap}
use vortex_proxy.Core.Backend.{Backend, SharedBackend, with_models}
use vortex_proxy.Core.CircuitBreaker
use vortex_proxy.Core.Ewma
use vortex_proxy.Core.Routing.{update_backends, snapshot}
use vortex_proxy.Admin.Watcher.{
  VortexBackendMap, WatchEvent, applied, watch_error, Shared, address_of, models_of, backend_of,
  arc_new, new_backends, on_event, watch,
}

abbrev pub named : Option SocketAddr → SocketAddr
named none = record { ip = v4 127 0 0 1; port = 80 }
named (some addr) = addr

abbrev pub listed_models : Option (List Text) → List Text
listed_models none = []
listed_models (some models) = models

module _ {ℓ} (A : ArcSwap (List SharedBackend)) {F : Type ℓ} ⦃f : Float F⦄ (baseline balanced : F)
    (parse : Text → Option SocketAddr) where
  new_backends-keeps :
      (w : Shared A F) (bs : List VortexBackendMap) (j : SharedBackend)
      → j < w.next
      → (new_backends A baseline balanced parse w bs).0.heap j ≡ w.heap j
  unfolding new_backends arc_new
  new_backends-keeps w [] j h = refl
  new_backends-keeps w (b ∷ bs) j h =
      let w' = (arc_new A baseline balanced parse w (backend_of A baseline balanced parse b)).0 in
      ground (arith, h, new_backends-keeps w' bs j (omega arith))

  -- The pointers of new backends lead to them.
  map-new_backends :
      (w : Shared A F) (bs : List VortexBackendMap)
      → map
          (new_backends A baseline balanced parse w bs).0.heap
          (new_backends A baseline balanced parse w bs).1
        ≡ map (backend_of A baseline balanced parse) bs
  unfolding new_backends arc_new
  map-new_backends w [] = refl
  map-new_backends w (b ∷ bs) =
      let w' = (arc_new A baseline balanced parse w (backend_of A baseline balanced parse b)).0 in
      ground (arith, new_backends-keeps w' bs w.next (omega arith), map-new_backends w' bs)

  next-new_backends :
      (w : Shared A F) (bs : List VortexBackendMap)
      → (new_backends A baseline balanced parse w bs).0.next ≡ w.next + length bs
  unfolding new_backends arc_new
  next-new_backends w [] = omega arith
  next-new_backends w (b ∷ bs) =
      let w' = (arc_new A baseline balanced parse w (backend_of A baseline balanced parse b)).0 in
      omega (arith, next-new_backends w' bs)

  -- The backends of the table, in order.
  abbrev pub table_of : Shared A F → List (Backend F)
  table_of w = map w.heap (snapshot A w.routing_table)

  -- The backend of an entry of a route: its number, the address that its text names, or port 80 of this
  -- host where it names none, and its models, sorted; taken to be healthy, with nothing in flight, no
  -- failure, and the average that every backend starts with.
  abbrev pub fresh : VortexBackendMap → Option SocketAddr → Option (List Text) → Backend F
  fresh b addr models = record {
    id = b.id;
    addr = named addr;
    healthy = true;
    ewma = record { ewma = baseline; decay_alpha = balanced; active_requests = 0 };
    circuit_breaker = record { failures = 0; last_failure_time = 0 };
    ai_models = sort_by text_gt (listed_models models);
  }

  address_of-named :
      (address : Text) → address_of A baseline balanced parse address ≡ named (parse address)
  unfolding address_of
  address_of-named address = elim (Option-cases (parse address)) [
    | inl e ↦ ground (arith, e)
    | inr (addr, e) ↦ ground (arith, e)
  ]

  models_of-listed :
      (models : Option (List Text))
      → models_of A baseline balanced parse models ≡ listed_models models
  models_of-listed none = refl
  models_of-listed (some models) = refl

  backend_of-fresh :
      (b : VortexBackendMap)
      → backend_of A baseline balanced parse b ≡ fresh b (parse b.address) b.ai_models
  unfolding backend_of with_models Ewma.new CircuitBreaker.new
  backend_of-fresh b =
      ap
        (λ addr.
          with_models baseline balanced b.id addr (models_of A baseline balanced parse b.ai_models))
        (address_of-named b.address)
      ∙ ap (λ models. with_models baseline balanced b.id (named (parse b.address)) models)
          (models_of-listed b.ai_models)

  abbrev pub fresh_backends : List VortexBackendMap → List (Backend F)
  fresh_backends [] = []
  fresh_backends (b ∷ bs) = fresh b (parse b.address) b.ai_models ∷ fresh_backends bs

  map-backend_of :
      (bs : List VortexBackendMap)
      → map (backend_of A baseline balanced parse) bs ≡ fresh_backends bs
  map-backend_of [] = refl
  map-backend_of (b ∷ bs) = ground (arith, map-backend_of bs, backend_of-fresh b)

  -- What a sequence of events describes: the backends of the last route that has any, and before the
  -- first such route those of the table that was there.
  abbrev pub described : List (Backend F) → List WatchEvent → List (Backend F)
  described old [] = old
  described old (watch_error ∷ events) = described old events
  described old (applied [] ∷ events) = described old events
  described old (applied (b ∷ bs) ∷ events) = described (fresh_backends (b ∷ bs)) events

  table-applied :
      (w : Shared A F) (b : VortexBackendMap) (bs : List VortexBackendMap)
      → table_of (on_event A baseline balanced parse w (applied (b ∷ bs))) ≡ fresh_backends (b ∷ bs)
  unfolding on_event new_backends snapshot update_backends
  table-applied w b bs =
      rw (A.load-store) (unfold new_backends in (map-new_backends w (b ∷ bs)))
      ∙ map-backend_of (b ∷ bs)

  on_event-keeps :
      (w : Shared A F) (e : WatchEvent) (j : SharedBackend)
      → j < w.next
      → ((on_event A baseline balanced parse w e).heap j ≡ w.heap j)
        × (j < (on_event A baseline balanced parse w e).next)
  unfolding on_event new_backends
  on_event-keeps w watch_error j h = (refl, h)
  on_event-keeps w (applied []) j h = (refl, h)
  on_event-keeps w (applied (b ∷ bs)) j h =
      (new_backends-keeps w (b ∷ bs) j h, omega (arith, h, next-new_backends w (b ∷ bs)))

  -- After any events, the table is the one that they describe: each backend fresh, with the number, the
  -- address (or port 80 of this host, where the text is none) and the sorted models of the route, in the
  -- route's order; an event with an error or without
  -- backends changes nothing. And a backend that was there before is as it was, for whoever still holds
  -- it.
  pub watch-described :
      (w : Shared A F) (events : List WatchEvent) (j : SharedBackend)
      → j < w.next
      → (table_of (watch A baseline balanced parse w events) ≡ described (table_of w) events)
        × ((watch A baseline balanced parse w events).heap j ≡ w.heap j)
  unfolding watch
  watch-described w [] j h = (refl, refl)
  watch-described w (watch_error ∷ events) j h = unfold on_event in watch-described w events j h
  watch-described w (applied [] ∷ events) j h =
      unfold on_event new_backends in watch-described w events j h
  watch-described w (applied (b ∷ bs) ∷ events) j h =
      let (kept, used) = on_event-keeps w (applied (b ∷ bs)) j h in
      let (table, same) =
        watch-described (on_event A baseline balanced parse w (applied (b ∷ bs))) events j used in
      (table ∙ ap (λ old. described old events) (table-applied w b bs), same ∙ kept)
