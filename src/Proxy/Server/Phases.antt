-- ===== src/Proxy/Server/Phases.antt =====
-- `forward_request` of server.rs in two parts, between which it waits for the upstream and other
-- requests may come: up to the guard of the selected backend, and from there to the reply.
pub mod Effects
use vortex_proxy.Prelude.{◌≡◌, refl, arith, none, some, Option-cases, inl, inr, Bool}
use vortex_proxy.Float.{Float}
use vortex_proxy.Net.{SocketAddr}
use vortex_proxy.Core.Backend.{SharedBackend}
use vortex_proxy.Core.Selector.{select_best_backend}
use vortex_proxy.Proxy.ConnectionPool.{try_pop}
use vortex_proxy.Proxy.Server.{
  Libraries, Network, Request, Reply, no_healthy_upstream, ServerContext, limited, at_backend,
  with_guard, without_guard, serve, guarded, route, check_limit, refuse, forward_request,
}

-- A request that has its reply, or one that holds the guard of a backend.
pub data Admission (Response : Type 0) : Type 0 where
  answered : Reply Response → Admission Response
  admitted : SharedBackend → Admission Response

module _ {ℓ} {Sender S R : Type 0} (L : Libraries Sender S R) {F : Type ℓ} ⦃f : Float F⦄
    {Response Value : Type 0} (net : Network Sender Response F) (req : Request Value) where
  unfoldable pub select : ServerContext L F → ServerContext L F × Admission Response
  select ctx = elim (select_best_backend L.cells ctx.heap net.select_secs ctx.routing_table) [
    | none ↦ (ctx, answered no_healthy_upstream)
    | some b ↦ (at_backend L net req ctx b (with_guard L net req), admitted b)
  ]

  abbrev pub refused_reply :
      ServerContext L F × Reply Response → ServerContext L F × Admission Response
  refused_reply (ctx, reply) = (ctx, answered reply)

  unfoldable pub admit : ServerContext L F → SocketAddr → ServerContext L F × Admission Response
  unfolding select
  admit ctx client =
      let (store, result) = check_limit L net req ctx client in
      let ctx' = record ctx { rate_store = store } in
      elim (limited result) [
        | some reset_after ↦ refused_reply (refuse L net req ctx' client reset_after)
        | none ↦ select ctx'
      ]

  unfoldable pub complete : ServerContext L F → SharedBackend → ServerContext L F × Reply Response
  complete ctx b =
      let (ctx', reply) = serve L net req ctx b in
      (at_backend L net req ctx' b (without_guard L net req), reply)

  unfoldable pub continue :
      ServerContext L F × Admission Response → ServerContext L F × Reply Response
  unfolding complete
  continue (ctx, answered reply) = (ctx, reply)
  continue (ctx, admitted b) = complete ctx b

  route-continue : (ctx : ServerContext L F) → route L net req ctx ≡ continue (select ctx)
  unfolding continue complete route guarded select
  route-continue ctx =
      elim (Option-cases (select_best_backend L.cells ctx.heap net.select_secs ctx.routing_table)) [
        | inl none_left ↦ ground (arith, none_left)
        | inr (b, found) ↦ ground (arith, found)
      ]

  -- The parts are those of the function.
  pub forward_request-continue :
      (ctx : ServerContext L F) (client : SocketAddr)
      → forward_request L net req ctx client ≡ continue (admit ctx client)
  unfolding forward_request admit
  forward_request-continue ctx client =
      let (store, result) = check_limit L net req ctx client in
      elim (Option-cases (limited result)) [
        | inr (reset_after, e) ↦ unfold continue refuse in ground (arith, e)
        | inl e ↦ ground (arith, e, route-continue (record ctx { rate_store = store }))
      ]

  -- The client goes away while its request waits for the upstream: the future is dropped with the
  -- guard, and with the sender, if one was popped.
  unfoldable pub cancel : ServerContext L F → SharedBackend → ServerContext L F
  cancel ctx b =
      let addr = (ctx.heap b).addr in
      let (pool, popped) = try_pop L.queues L.pools net.closed_at_pop ctx.connection_pool addr in
      at_backend L net req (record ctx { connection_pool = pool }) b (without_guard L net req)
