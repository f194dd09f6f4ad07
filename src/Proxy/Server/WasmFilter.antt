-- ===== src/Proxy/Server/WasmFilter.antt =====
-- The first step of `forward_request` in server.rs, the Wasm filter, in front of the rest of it. The
-- lock of the payload is poisoned where a thread has panicked while it held it for writing.
use vortex_proxy.Prelude.{
  ◌≡◌, refl, arith, Bool, Bool-cases, inl, inr, List, ◌∷◌, Option, none, some, Text, if◌then◌else◌,
  ℕ,
}
use vortex_proxy.Float.{Float}
use vortex_proxy.Net.{SocketAddr}
use vortex_proxy.Core.ArcSwap.{ArcSwap}
use vortex_proxy.Core.Backend.{SharedBackend}
use vortex_proxy.Admin.AdminServer.{AdminServer, update_wasm_plugin}
use vortex_proxy.Filters.WasmEngine.{Run, finished, forever, Wasmtime, execute_filter}
use vortex_proxy.Proxy.Server.{
  Libraries, Network, Request, Reply, too_many_requests, no_healthy_upstream,
  upstream_connection_failed, upstream_handshake_failed, upstream_request_failed, unprepared,
  uri_panicked, forwarded, ServerContext, forward_request,
}

-- How the call ends, if it does.
pub data Handled (Response : Type 0) : Type 0 where
  panicked : Handled Response
  replied : Reply Response → Handled Response
  never : Handled Response

abbrev pub handled : {Response : Type 0} → Reply Response → Handled Response
handled uri_panicked = panicked
handled (too_many_requests reset_after) = replied (too_many_requests reset_after)
handled no_healthy_upstream = replied no_healthy_upstream
handled upstream_connection_failed = replied upstream_connection_failed
handled upstream_handshake_failed = replied upstream_handshake_failed
handled upstream_request_failed = replied upstream_request_failed
handled unprepared = replied unprepared
handled (forwarded response) = replied (forwarded response)

-- The code or the error of the filter is logged.
unfoldable pub log_filter {ℓ} : {A : Type ℓ} → Option ℕ → A → A
log_filter none rest = rest
log_filter (some code) rest = rest

log_filter_same {ℓ} : {A : Type ℓ} (result : Option ℕ) (rest : A) → log_filter result rest ≡ rest
unfolding log_filter
log_filter_same none rest = refl
log_filter_same (some code) rest = refl

module _ {ℓ} {Sender S R : Type 0} (L : Libraries Sender S R) {F : Type ℓ} ⦃f : Float F⦄
    {Response Value : Type 0} (net : Network Sender Response F) (req : Request Value)
    (W : Wasmtime (Unit {0})) where
  abbrev rest_of : ServerContext L F × Reply Response → ServerContext L F × Handled Response
  rest_of (ctx, reply) = (ctx, handled reply)

  -- What follows the filter.
  abbrev after_filter :
      Run (Unit {0} × Option ℕ)
      → ServerContext L F
      → SocketAddr
      → ServerContext L F × Handled Response
  after_filter forever ctx client = (ctx, never)
  after_filter (finished (store, result)) ctx client =
      log_filter result (rest_of (forward_request L net req ctx client))

  unfoldable pub handle_request :
      Bool → Text → ServerContext L F → SocketAddr → ServerContext L F × Handled Response
  unfolding log_filter
  handle_request poisoned payload ctx client =
      if poisoned then (ctx, panicked) else after_filter (execute_filter W tt payload) ctx client

  -- What a client gets, by whether the filter ends.
  abbrev pub expected :
      Run (Unit {0} × Option ℕ)
      → ServerContext L F
      → SocketAddr
      → ServerContext L F × Handled Response
  expected forever ctx client = (ctx, never)
  expected (finished _) ctx client =
      ((forward_request L net req ctx client).0, handled (forward_request L net req ctx client).1)

  after_filter-expected :
      (run : Run (Unit {0} × Option ℕ)) (ctx : ServerContext L F) (client : SocketAddr)
      → after_filter run ctx client ≡ expected run ctx client
  after_filter-expected forever ctx client = refl
  after_filter-expected (finished (store, result)) ctx client =
      log_filter_same result (rest_of (forward_request L net req ctx client))

  -- When an operator uploads a plugin that is not empty: if the lock of the payload is poisoned, every
  -- request after it panics; otherwise, if the plugin runs forever, then so does every request, with
  -- nothing changed and no reply; and if it ends, in whatever way, a request is accounted for and answered
  -- as it would be without a plugin, so that neither the code of the filter nor its failure has an
  -- effect.
  pub handle_request-update_wasm_plugin {κ} :
      {G : Type κ} (A : ArcSwap (List SharedBackend)) (admin : AdminServer A G) (b : ℕ)
      (wasm_binary : List ℕ) (ctx : ServerContext L F) (client : SocketAddr)
      → handle_request
          (update_wasm_plugin A admin (b ∷ wasm_binary)).0.poisoned
          (update_wasm_plugin A admin (b ∷ wasm_binary)).0.active_wasm_payload
          ctx
          client
        ≡ (if admin.poisoned
            then (ctx, panicked)
            else expected (execute_filter W tt (b ∷ wasm_binary)) ctx client)
  unfolding handle_request update_wasm_plugin
  handle_request-update_wasm_plugin A admin b wasm_binary ctx client =
      elim (Bool-cases admin.poisoned) [
        | inl e ↦ ground (arith, e)
        | inr e ↦ rw e (after_filter-expected (execute_filter W tt (b ∷ wasm_binary)) ctx client)
      ]
