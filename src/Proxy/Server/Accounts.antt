-- ===== src/Proxy/Server/Accounts.antt =====
-- What one request to server.rs changes in the backends.
use vortex_proxy.Prelude.{
  ℕ, ◌<◌, ◌≡◌, refl, ap, ◌∙◌, ◌==◌, Bool-cases, inl, inr, Option, none, some, Option-cases,
  if◌then◌else◌, arith, incr64, decr64, u64_mod,
}
use vortex_proxy.Float.{Float}
use vortex_proxy.Net.{SocketAddr}
use vortex_proxy.Core.Backend.{Backend, SharedBackend, Heap}
use vortex_proxy.Core.CircuitBreaker.{record_success, record_failure}
use vortex_proxy.Core.Ewma.{increment_active, drop_guard, observe_latency}
use vortex_proxy.Core.Selector.{select_best_backend}
use vortex_proxy.Proxy.ConnectionPool.{try_pop}
use vortex_proxy.Proxy.Server.{
  Libraries, Network, Request, Reply, too_many_requests, no_healthy_upstream,
  upstream_connection_failed, upstream_handshake_failed, upstream_request_failed, unprepared,
  uri_panicked, forwarded, ServerContext, Connection, refused, unshaken, connected, limited,
  at_backend, with_guard, without_guard, connection, exchange, proceed, serve, guarded, route,
  check_limit, refuse, forward_request, outgoing,
}

module _ {ℓ} {F : Type ℓ} ⦃f : Float F⦄ {Sender Response : Type 0}
    (net : Network Sender Response F) where
  -- The backend that a request went to, after the reply.
  abbrev pub settled : Reply Response → Backend F → Backend F
  settled (too_many_requests _) backend = backend
  settled no_healthy_upstream backend = backend
  settled unprepared backend = backend
  settled uri_panicked backend = backend
  settled upstream_connection_failed backend = record backend {
    circuit_breaker = record_failure backend.circuit_breaker net.failure_secs;
  }
  settled upstream_handshake_failed backend = record backend {
    circuit_breaker = record_failure backend.circuit_breaker net.failure_secs;
  }
  settled upstream_request_failed backend = record backend {
    circuit_breaker = record_failure backend.circuit_breaker net.failure_secs;
  }
  settled (forwarded _) backend = record backend {
    ewma = observe_latency backend.ewma net.rtt_ms;
    circuit_breaker = record_success backend.circuit_breaker;
  }

  -- All backends after the reply to a request for which `target` was selected.
  abbrev pub accounts : Option SharedBackend → Reply Response → Heap F → SharedBackend → Backend F
  accounts none reply h j = h j
  accounts (some b) reply h j = if b == j then settled reply (h j) else h j

decr64-incr64 : (n : ℕ) → n < u64_mod → decr64 (incr64 n) ≡ n
decr64-incr64 n h = omega (arith, h)

module _ {ℓ} {Sender S R : Type 0} (L : Libraries Sender S R) {F : Type ℓ} ⦃f : Float F⦄
    {Response Value : Type 0} (net : Network Sender Response F) (req : Request Value) where
  drop-increment :
      (x : Backend F)
      → x.ewma.active_requests < u64_mod
      → without_guard L net req (with_guard L net req x) ≡ x
  unfolding increment_active drop_guard
  drop-increment x fits =
      ap (λ n. record x { ewma = record x.ewma { active_requests = n } })
        (decr64-incr64 x.ewma.active_requests fits)

  settled-guards :
      (reply : Reply Response) (x : Backend F)
      → without_guard L net req (settled net reply (with_guard L net req x))
        ≡ settled net reply (without_guard L net req (with_guard L net req x))
  unfolding increment_active drop_guard observe_latency
  settled-guards (too_many_requests _) x = refl
  settled-guards no_healthy_upstream x = refl
  settled-guards unprepared x = refl
  settled-guards uri_panicked x = refl
  settled-guards upstream_connection_failed x = refl
  settled-guards upstream_handshake_failed x = refl
  settled-guards upstream_request_failed x = refl
  settled-guards (forwarded _) x = refl

  exchange-heap :
      (ctx : ServerContext L F) (b j : SharedBackend) (addr : SocketAddr) (s : Sender)
      → (exchange L net req ctx b addr s).0.heap j
        ≡ accounts net (some b) (exchange L net req ctx b addr s).1 ctx.heap j
  unfolding exchange
  exchange-heap ctx b j addr s = elim (Bool-cases (L.parses_uri (outgoing L net req addr).uri)) [
    | inr p ↦ ground (arith, p)
    | inl p ↦ elim (Bool-cases (net.ready s)) [
      | inr e ↦ ground (arith, p, e)
      | inl e ↦ elim (Option-cases (net.send_request s (outgoing L net req addr))) [
        | inl o ↦ ground (arith, p, e, o)
        | inr (response, o) ↦ ground (arith, p, e, o)
      ]
    ]
  ]

  proceed-heap :
      (ctx : ServerContext L F) (b j : SharedBackend) (addr : SocketAddr) (c : Connection Sender)
      → (proceed L net req ctx b addr c).0.heap j
        ≡ accounts net (some b) (proceed L net req ctx b addr c).1 ctx.heap j
  unfolding proceed
  proceed-heap ctx b j addr refused = ground arith
  proceed-heap ctx b j addr unshaken = ground arith
  proceed-heap ctx b j addr (connected s) = exchange-heap ctx b j addr s

  pub serve-heap :
      (ctx : ServerContext L F) (b j : SharedBackend)
      → (serve L net req ctx b).0.heap j
        ≡ accounts net (some b) (serve L net req ctx b).1 ctx.heap j
  unfolding serve
  serve-heap ctx b j =
      let addr = (ctx.heap b).addr in
      let popped = try_pop L.queues L.pools net.closed_at_pop ctx.connection_pool addr in
      proceed-heap (record ctx { connection_pool = popped.0 }) b j addr
        (connection L net req addr popped.1)

  -- The guard of the selected backend is dropped again.
  guarded_self :
      (ctx : ServerContext L F) (b : SharedBackend)
      → (ctx.heap b).ewma.active_requests < u64_mod
      → without_guard L net req
          ((serve L net req (at_backend L net req ctx b (with_guard L net req)) b).0.heap b)
        ≡ settled net (guarded L net req ctx b).1 (ctx.heap b)
  unfolding guarded
  guarded_self ctx b fits =
      let held = at_backend L net req ctx b (with_guard L net req) in
      let reply = (serve L net req held b).1 in
      let here : accounts net (some b) reply held.heap b
          ≡ settled net reply (with_guard L net req (ctx.heap b)) =
        ground arith in
      ap (without_guard L net req) (serve-heap held b b ∙ here)
      ∙ settled-guards reply (ctx.heap b)
      ∙ ap (settled net reply) (drop-increment (ctx.heap b) fits)

  guarded-heap :
      (ctx : ServerContext L F) (b j : SharedBackend)
      → (ctx.heap b).ewma.active_requests < u64_mod
      → (guarded L net req ctx b).0.heap j
        ≡ accounts net (some b) (guarded L net req ctx b).1 ctx.heap j
  unfolding guarded
  guarded-heap ctx b j fits =
      let held = at_backend L net req ctx b (with_guard L net req) in
      elim (Bool-cases (b == j)) [
        | inl e ↦ ground (arith, e, guarded_self ctx b fits)
        | inr e ↦ ground (arith, e, serve-heap held b j)
      ]

  -- The backend that a request which is not limited goes to.
  abbrev pub target : ServerContext L F → Option SharedBackend
  target ctx = select_best_backend L.cells ctx.heap net.select_secs ctx.routing_table

  route-heap :
      (ctx : ServerContext L F) (j : SharedBackend)
      → ((b : SharedBackend) → (ctx.heap b).ewma.active_requests < u64_mod)
      → (route L net req ctx).0.heap j
        ≡ accounts net (target ctx) (route L net req ctx).1 ctx.heap j
  unfolding route
  route-heap ctx j fits = elim (Option-cases (target ctx)) [
    | inl e ↦ ground (arith, e)
    | inr (b, e) ↦ ground (arith, e, guarded-heap ctx b j (fits b))
  ]

  -- While the in-flight counters fit their words, a request leaves every backend as it was but the one
  -- that was selected for it, and that one as the reply says: after a response, a success is recorded
  -- on its breaker and the round trip is observed; after a failed connection, handshake or request, a
  -- failure is recorded; after any other reply nothing is. In every case its count of requests in
  -- flight is back to what it was.
  pub forward_request-accounts :
      (ctx : ServerContext L F) (client : SocketAddr) (j : SharedBackend)
      → ((b : SharedBackend) → (ctx.heap b).ewma.active_requests < u64_mod)
      → (forward_request L net req ctx client).0.heap j
        ≡ accounts net (target ctx) (forward_request L net req ctx client).1 ctx.heap j
  unfolding forward_request refuse
  forward_request-accounts ctx client j fits =
      let (store, result) = check_limit L net req ctx client in
      elim (Option-cases (limited result)) [
        | inl e ↦ ground (arith, e, route-heap (record ctx { rate_store = store }) j fits)
        | inr (reset_after, e) ↦ ground (arith, e)
      ]
