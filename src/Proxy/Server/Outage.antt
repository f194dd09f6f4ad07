-- ===== src/Proxy/Server/Outage.antt =====
-- What clients of server.rs see once the only backend has failed too often.
use vortex_proxy.Prelude.{
  ◌+◌, ◌≤◌, ◌<◌, ◌≡◌, refl, ap, ◌∙◌, subst, arith, true, Bool-cases, inl, inr, none, some,
  Option-cases, [], ◌∷◌, Has, u64_mod,
}
use vortex_proxy.Float.{Float}
use vortex_proxy.Net.{SocketAddr}
use vortex_proxy.Core.Backend.{SharedBackend}
use vortex_proxy.Core.CircuitBreaker.{failure_threshold, reset_timeout_secs}
use vortex_proxy.Core.Routing.{snapshot}
use vortex_proxy.Core.Selector.Choice.{select_best_backend-IsUsable}
use vortex_proxy.Proxy.ConnectionPool.{try_pop}
use vortex_proxy.Proxy.Server.{
  Libraries, Network, Request, no_healthy_upstream, ServerContext, Connection, refused, unshaken,
  connected, limited, at_backend, with_guard, connection, exchange, proceed, serve, guarded, route,
  check_limit, refuse, forward_request, outgoing,
}
use vortex_proxy.Proxy.Server.Accounts.{target}
use vortex_proxy.Proxy.Server.Breakers.{is_failure, forward_request-isolates}

module _ {ℓ} {Sender S R : Type 0} (L : Libraries Sender S R) {F : Type ℓ} ⦃f : Float F⦄
    {Response Value : Type 0} (net : Network Sender Response F) (req : Request Value) where
  exchange-table :
      (ctx : ServerContext L F) (b : SharedBackend) (addr : SocketAddr) (s : Sender)
      → (exchange L net req ctx b addr s).0.routing_table ≡ ctx.routing_table
  unfolding exchange
  exchange-table ctx b addr s = elim (Bool-cases (L.parses_uri (outgoing L net req addr).uri)) [
    | inr p ↦ ground (arith, p)
    | inl p ↦ elim (Bool-cases (net.ready s)) [
      | inr e ↦ ground (arith, p, e)
      | inl e ↦ elim (Option-cases (net.send_request s (outgoing L net req addr))) [
        | inl o ↦ ground (arith, p, e, o)
        | inr (response, o) ↦ ground (arith, p, e, o)
      ]
    ]
  ]

  proceed-table :
      (ctx : ServerContext L F) (b : SharedBackend) (addr : SocketAddr) (c : Connection Sender)
      → (proceed L net req ctx b addr c).0.routing_table ≡ ctx.routing_table
  unfolding proceed
  proceed-table ctx b addr refused = refl
  proceed-table ctx b addr unshaken = refl
  proceed-table ctx b addr (connected s) = exchange-table ctx b addr s

  guarded-table :
      (ctx : ServerContext L F) (b : SharedBackend)
      → (guarded L net req ctx b).0.routing_table ≡ ctx.routing_table
  unfolding guarded serve
  guarded-table ctx b =
      let held = at_backend L net req ctx b (with_guard L net req) in
      let addr = (held.heap b).addr in
      let popped = try_pop L.queues L.pools net.closed_at_pop held.connection_pool addr in
      proceed-table (record held { connection_pool = popped.0 }) b addr
        (connection L net req addr popped.1)

  route-table :
      (ctx : ServerContext L F) → (route L net req ctx).0.routing_table ≡ ctx.routing_table
  unfolding route
  route-table ctx = elim (Option-cases (target L net req ctx)) [
    | inl e ↦ ground (arith, e)
    | inr (b, e) ↦ ground (arith, e, guarded-table ctx b)
  ]

  forward_request-table :
      (ctx : ServerContext L F) (client : SocketAddr)
      → (forward_request L net req ctx client).0.routing_table ≡ ctx.routing_table
  unfolding forward_request refuse
  forward_request-table ctx client =
      let (store, result) = check_limit L net req ctx client in
      elim (Option-cases (limited result)) [
        | inl e ↦ ground (arith, e, route-table (record ctx { rate_store = store }))
        | inr (reset_after, e) ↦ ground (arith, e)
      ]

  -- A request that is not limited, when nothing can be selected.
  forward_request-nothing :
      (ctx : ServerContext L F) (client : SocketAddr)
      → limited (check_limit L net req ctx client).1 ≡ none
      → target L net req ctx ≡ none
      → (forward_request L net req ctx client).1 ≡ no_healthy_upstream
  unfolding forward_request route
  forward_request-nothing ctx client allowed nothing = ground (arith, allowed, nothing)

module _ {ℓ} {Sender S R : Type 0} (L : Libraries Sender S R) {F : Type ℓ} ⦃f : Float F⦄
    {Response Value : Type 0} (net next : Network Sender Response F)
    (req next_req : Request Value) where
  -- When the table has one backend alone, and the fifth request to it in a row fails, or a later one:
  -- a next request of any client, which the rate store lets through and which comes within thirty
  -- seconds, is answered by `no_healthy_upstream` at once. (No counter is about to overflow.)
  pub forward_request-outage :
      (ctx : ServerContext L F) (client other : SocketAddr) (b : SharedBackend)
      → snapshot L.cells ctx.routing_table ≡ b ∷ []
      → ((b : SharedBackend) → (ctx.heap b).ewma.active_requests < u64_mod)
      → target L net req ctx ≡ some b
      → is_failure (forward_request L net req ctx client).1 ≡ true
      → failure_threshold ≤ (ctx.heap b).circuit_breaker.failures + 1
      → (ctx.heap b).circuit_breaker.failures + 1 < u64_mod
      → net.failure_secs + reset_timeout_secs < u64_mod
      → next.select_secs ≤ net.failure_secs + reset_timeout_secs
      → limited (check_limit L next next_req (forward_request L net req ctx client).0 other).1
        ≡ none
      → (forward_request L next next_req (forward_request L net req ctx client).0 other).1
        ≡ no_healthy_upstream
  forward_request-outage ctx client other b alone fits e failed many room late early allowed =
      let after = (forward_request L net req ctx client).0 in
      forward_request-nothing L next next_req after other allowed
        (elim (Option-cases (target L next next_req after)) [
          | inl nothing ↦ nothing
          | inr (c, chosen) ↦
              let there =
                (select_best_backend-IsUsable L.cells after.heap next.select_secs
                  after.routing_table chosen).0 in
              let listed =
                subst (λ t. Has c (snapshot L.cells t)) (forward_request-table L net req ctx client)
                  there in
              absurd (elim (subst (Has c) alone listed) [
                | inl same ↦
                    forward_request-isolates L net req ctx client b after.routing_table
                      next.select_secs fits e failed many room late early (chosen ∙ ap some same)
                | inr nowhere ↦ nowhere
              ])
        ])
