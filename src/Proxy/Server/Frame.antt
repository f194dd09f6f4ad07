-- ===== src/Proxy/Server/Frame.antt =====
-- What serving a request in server.rs leaves alone: everything of the context but the backends and the
-- pool.
use vortex_proxy.Prelude.{◌≡◌, Bool-cases, inl, inr, Option-cases, arith}
use vortex_proxy.Float.{Float}
use vortex_proxy.Net.{SocketAddr}
use vortex_proxy.Core.Backend.{SharedBackend}
use vortex_proxy.Core.Selector.{select_best_backend}
use vortex_proxy.Proxy.ConnectionPool.{try_pop}
use vortex_proxy.Proxy.Server.{
  Libraries, Network, Request, ServerContext, Connection, refused, unshaken, connected, at_backend,
  with_guard, connection, exchange, proceed, serve, guarded, route, outgoing,
}

module _ {ℓ} {Sender S R : Type 0} (L : Libraries Sender S R) {F : Type ℓ} where
  pub record IsFramed (ctx after : ServerContext L F) : Type ℓ where
    pub table : after.routing_table ≡ ctx.routing_table
    pub store : after.rate_store ≡ ctx.rate_store
    pub bans : after.ban_manager ≡ ctx.ban_manager

module _ {ℓ} {Sender S R : Type 0} (L : Libraries Sender S R) {F : Type ℓ} ⦃f : Float F⦄
    {Response Value : Type 0} (net : Network Sender Response F) (req : Request Value) where
  exchange-IsFramed :
      (ctx : ServerContext L F) (b : SharedBackend) (addr : SocketAddr) (s : Sender)
      → IsFramed L ctx (exchange L net req ctx b addr s).0
  unfolding exchange
  exchange-IsFramed ctx b addr s = elim (Bool-cases (L.parses_uri (outgoing L net req addr).uri)) [
    | inr p ↦ ground (arith, p)
    | inl p ↦ elim (Bool-cases (net.ready s)) [
      | inr e ↦ ground (arith, p, e)
      | inl e ↦ elim (Option-cases (net.send_request s (outgoing L net req addr))) [
        | inl o ↦ ground (arith, p, e, o)
        | inr (response, o) ↦ ground (arith, p, e, o)
      ]
    ]
  ]

  proceed-IsFramed :
      (ctx : ServerContext L F) (b : SharedBackend) (addr : SocketAddr) (c : Connection Sender)
      → IsFramed L ctx (proceed L net req ctx b addr c).0
  unfolding proceed
  proceed-IsFramed ctx b addr refused = ground arith
  proceed-IsFramed ctx b addr unshaken = ground arith
  proceed-IsFramed ctx b addr (connected s) = exchange-IsFramed ctx b addr s

  pub serve-IsFramed :
      (ctx : ServerContext L F) (b : SharedBackend) → IsFramed L ctx (serve L net req ctx b).0
  unfolding serve
  serve-IsFramed ctx b =
      let addr = (ctx.heap b).addr in
      let popped = try_pop L.queues L.pools net.closed_at_pop ctx.connection_pool addr in
      let v =
        proceed-IsFramed (record ctx { connection_pool = popped.0 }) b addr
          (connection L net req addr popped.1) in
      record { table = v.table; store = v.store; bans = v.bans }

  pub route-IsFramed : (ctx : ServerContext L F) → IsFramed L ctx (route L net req ctx).0
  unfolding route guarded
  route-IsFramed ctx =
      elim (Option-cases (select_best_backend L.cells ctx.heap net.select_secs ctx.routing_table)) [
        | inl e ↦ ground (arith, e)
        | inr (b, e) ↦
            let v = serve-IsFramed (at_backend L net req ctx b (with_guard L net req)) b in
            ground (arith, e, v.table, v.store, v.bans)
      ]
