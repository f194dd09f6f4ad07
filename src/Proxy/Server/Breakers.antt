-- ===== src/Proxy/Server/Breakers.antt =====
-- Where server.rs sends requests, and how a failing backend is left alone.
use vortex_proxy.Prelude.{
  ℕ, ◌+◌, ◌≤◌, ◌<◌, ◌≡◌, ◌≢◌, refl, ap, ◌∙◌, Bool, true, false, some, arith, u64_mod,
}
use vortex_proxy.Float.{Float}
use vortex_proxy.Net.{SocketAddr}
use vortex_proxy.Core.Backend.{Backend, SharedBackend}
use vortex_proxy.Core.CircuitBreaker.{
  CircuitBreaker, state, open_circuit, record_failure, failure_threshold, reset_timeout_secs,
}
use vortex_proxy.Core.Routing.{RoutingTable}
use vortex_proxy.Core.Selector.{select_best_backend}
use vortex_proxy.Core.Selector.Choice.{select_best_backend-IsUsable}
use vortex_proxy.Proxy.Server.{
  Libraries, Network, Request, Reply, too_many_requests, no_healthy_upstream,
  upstream_connection_failed, upstream_handshake_failed, upstream_request_failed, unprepared,
  uri_panicked, forwarded, ServerContext, forward_request,
}
use vortex_proxy.Proxy.Server.Accounts.{accounts, settled, target, forward_request-accounts}

-- The replies after which a failure is recorded.
abbrev pub is_failure : {Response : Type 0} → Reply Response → Bool
is_failure (too_many_requests _) = false
is_failure no_healthy_upstream = false
is_failure upstream_connection_failed = true
is_failure upstream_handshake_failed = true
is_failure upstream_request_failed = true
is_failure unprepared = false
is_failure uri_panicked = false
is_failure (forwarded _) = false

state-record_failure :
    (cb : CircuitBreaker) (at now : ℕ)
    → failure_threshold ≤ cb.failures + 1
    → cb.failures + 1 < u64_mod
    → at + reset_timeout_secs < u64_mod
    → now ≤ at + reset_timeout_secs
    → state (record_failure cb at) now ≡ open_circuit
unfolding state record_failure
state-record_failure cb at now many room fits early = ground arith

module _ {ℓ} {F : Type ℓ} ⦃f : Float F⦄ {Sender Response : Type 0}
    (net : Network Sender Response F) where
  settled-failure :
      (reply : Reply Response) (x : Backend F)
      → is_failure reply ≡ true
      → (settled net reply x).circuit_breaker ≡ record_failure x.circuit_breaker net.failure_secs
  settled-failure (too_many_requests _) x h = cc
  settled-failure no_healthy_upstream x h = cc
  settled-failure unprepared x h = cc
  settled-failure uri_panicked x h = cc
  settled-failure upstream_connection_failed x h = refl
  settled-failure upstream_handshake_failed x h = refl
  settled-failure upstream_request_failed x h = refl
  settled-failure (forwarded _) x h = cc

module _ {ℓ} {Sender S R : Type 0} (L : Libraries Sender S R) {F : Type ℓ} ⦃f : Float F⦄
    {Response Value : Type 0} (net : Network Sender Response F) (req : Request Value) where
  breaker-after :
      (ctx : ServerContext L F) (client : SocketAddr) (b : SharedBackend)
      → ((b : SharedBackend) → (ctx.heap b).ewma.active_requests < u64_mod)
      → target L net req ctx ≡ some b
      → is_failure (forward_request L net req ctx client).1 ≡ true
      → ((forward_request L net req ctx client).0.heap b).circuit_breaker
        ≡ record_failure (ctx.heap b).circuit_breaker net.failure_secs
  breaker-after ctx client b fits e failed =
      let reply = (forward_request L net req ctx client).1 in
      let here : accounts net (target L net req ctx) reply ctx.heap b
          ≡ settled net reply (ctx.heap b) =
        ground (arith, e) in
      ap (λ x. x.circuit_breaker) (forward_request-accounts L net req ctx client b fits ∙ here)
      ∙ settled-failure net reply (ctx.heap b) failed

  -- When the fifth request in a row to a backend fails, or a later one, that backend is not selected
  -- again at any clock reading up to thirty seconds after the failure, whatever the table is by then.
  -- (No counter is about to overflow.)
  pub forward_request-isolates :
      (ctx : ServerContext L F) (client : SocketAddr) (b : SharedBackend)
      (table : RoutingTable L.cells) (now : ℕ)
      → ((b : SharedBackend) → (ctx.heap b).ewma.active_requests < u64_mod)
      → target L net req ctx ≡ some b
      → is_failure (forward_request L net req ctx client).1 ≡ true
      → failure_threshold ≤ (ctx.heap b).circuit_breaker.failures + 1
      → (ctx.heap b).circuit_breaker.failures + 1 < u64_mod
      → net.failure_secs + reset_timeout_secs < u64_mod
      → now ≤ net.failure_secs + reset_timeout_secs
      → select_best_backend L.cells (forward_request L net req ctx client).0.heap now table ≢ some b
  forward_request-isolates ctx client b table now fits e failed many room late early selected =
      let cb = (ctx.heap b).circuit_breaker in
      let usable =
        (select_best_backend-IsUsable L.cells (forward_request L net req ctx client).0.heap now
          table selected).1 in
      usable.1 (
        ap (λ c. state c now) (breaker-after ctx client b fits e failed)
        ∙ state-record_failure cb net.failure_secs now many room late early)
