-- ===== src/Proxy/Server/Upstream.antt =====
-- Where server.rs gets the response from that it forwards.
use vortex_proxy.Prelude.{
  ◌≡◌, ◌++◌, refl, ap, none, Option, Text, bytes, true, Bool-cases, inl, inr, some, Option-cases,
  arith, subst, Has,
}
use vortex_proxy.Float.{Float}
use vortex_proxy.Net.{SocketAddr}
use vortex_proxy.Core.Backend.{SharedBackend}
use vortex_proxy.Core.Routing.{snapshot}
use vortex_proxy.Core.Selector.Choice.{IsUsable, select_best_backend-IsUsable}
use vortex_proxy.Proxy.ConnectionPool.{try_pop}
use vortex_proxy.Proxy.Server.{
  Libraries, Outgoing, Network, Request, forwarded, ServerContext, Connection, refused, unshaken,
  connected, limited, at_backend, with_guard, connection, exchange, proceed, serve, guarded, route,
  check_limit, refuse, forward_request, outgoing,
}
use vortex_proxy.Proxy.Server.Accounts.{target}

abbrev pub path_or_root : Option Text → Text
path_or_root none = bytes "/"
path_or_root (some path) = path

module _ {ℓ} {Sender S R : Type 0} (L : Libraries Sender S R) {F : Type ℓ} ⦃f : Float F⦄
    {Response Value : Type 0} (net : Network Sender Response F) (req : Request Value)
    (response : Response) where
  -- Some ready sender gave the response to the client's path, or to `/` for none, at an address.
  abbrev pub IsAnswered : SocketAddr → Type 0
  IsAnswered addr =
      (s : Sender) × (out : Outgoing) × (net.ready s ≡ true)
      × (net.send_request s out ≡ some response)
      × (out.uri ≡ bytes "http://" ++ L.display_addr addr ++ path_or_root req.path)
      × (out.host ≡ L.display_addr addr)

  outgoing-uri :
      (path : Option Text) → (elim path [ none ↦ bytes "/" | some p ↦ p ]) ≡ path_or_root path
  outgoing-uri none = refl
  outgoing-uri (some p) = refl

  exchange-IsAnswered :
      (ctx : ServerContext L F) (b : SharedBackend) (addr : SocketAddr) (s : Sender)
      → (exchange L net req ctx b addr s).1 ≡ forwarded response
      → IsAnswered addr
  unfolding exchange outgoing
  exchange-IsAnswered ctx b addr s h =
      elim (Bool-cases (L.parses_uri (outgoing L net req addr).uri)) [
        | inr p ↦ absurd (ground (arith, p, h))
        | inl p ↦ elim (Bool-cases (net.ready s)) [
          | inr e ↦ absurd (ground (arith, p, e, h))
          | inl e ↦ elim (Option-cases (net.send_request s (outgoing L net req addr))) [
            | inl o ↦ absurd (ground (arith, p, e, o, h))
            | inr (other, o) ↦ (
              s,
              outgoing L net req addr,
              e,
              ground (arith, p, e, o, h),
              ap (λ path. bytes "http://" ++ L.display_addr addr ++ path) (outgoing-uri req.path),
              refl,
            )
          ]
        ]
      ]

  proceed-IsAnswered :
      (ctx : ServerContext L F) (b : SharedBackend) (addr : SocketAddr) (c : Connection Sender)
      → (proceed L net req ctx b addr c).1 ≡ forwarded response
      → IsAnswered addr
  unfolding proceed
  proceed-IsAnswered ctx b addr refused h = cc
  proceed-IsAnswered ctx b addr unshaken h = cc
  proceed-IsAnswered ctx b addr (connected s) h = exchange-IsAnswered ctx b addr s h

  guarded-IsAnswered :
      (ctx : ServerContext L F) (b : SharedBackend)
      → (guarded L net req ctx b).1 ≡ forwarded response
      → IsAnswered (ctx.heap b).addr
  unfolding guarded serve
  guarded-IsAnswered ctx b h =
      let held = at_backend L net req ctx b (with_guard L net req) in
      let addr = (held.heap b).addr in
      let same : addr ≡ (ctx.heap b).addr = ground arith in
      let popped = try_pop L.queues L.pools net.closed_at_pop held.connection_pool addr in
      subst IsAnswered same (
        proceed-IsAnswered (record held { connection_pool = popped.0 }) b addr
          (connection L net req addr popped.1) h)

  -- What a forwarded response is an answer to, from which backend.
  abbrev pub IsServed : ServerContext L F → Type 0
  IsServed ctx =
      (b : SharedBackend) × Has b (snapshot L.cells ctx.routing_table)
      × IsUsable ctx.heap net.select_secs b
      × IsAnswered (ctx.heap b).addr

  route-IsServed :
      (ctx : ServerContext L F) → (route L net req ctx).1 ≡ forwarded response → IsServed ctx
  unfolding route
  route-IsServed ctx h = elim (Option-cases (target L net req ctx)) [
    | inl e ↦ absurd (ground (arith, e, h))
    | inr (b, e) ↦
        let (there, usable) =
          select_best_backend-IsUsable L.cells ctx.heap net.select_secs ctx.routing_table e in
        (b, there, usable, guarded-IsAnswered ctx b (ground (arith, e, h)))
  ]

  -- A response that is forwarded to the client was given, by a ready sender, to a request whose URI is
  -- `http://`, the address of a backend and the client's path (or `/`, where it has none), and whose
  -- `Host` header is that address; and that backend is in the table, healthy, and not behind an open
  -- circuit.
  pub forward_request-IsServed :
      (ctx : ServerContext L F) (client : SocketAddr)
      → (forward_request L net req ctx client).1 ≡ forwarded response
      → IsServed ctx
  unfolding forward_request refuse
  forward_request-IsServed ctx client h =
      let (store, result) = check_limit L net req ctx client in
      elim (Option-cases (limited result)) [
        | inl e ↦ route-IsServed (record ctx { rate_store = store }) (ground (arith, e, h))
        | inr (reset_after, e) ↦ absurd (ground (arith, e, h))
      ]
