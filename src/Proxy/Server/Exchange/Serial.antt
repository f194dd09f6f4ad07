-- ===== src/Proxy/Server/Exchange/Serial.antt =====
-- A request of server.rs that takes its steps one after the other, with none of another between: the
-- function as it is called.
use vortex_proxy.Prelude.{
  ℕ, ◌≡◌, refl, sym, subst, true, false, Option, none, some, Option-cases, Bool-cases, inl, inr,
  get_elem?, get_elem?-set, length, arith,
}
use vortex_proxy.Float.{Float}
use vortex_proxy.Net.{SocketAddr}
use vortex_proxy.Core.Backend.{SharedBackend}
use vortex_proxy.Proxy.ConnectionPool.{try_pop, push}
use vortex_proxy.Proxy.Server
use vortex_proxy.Proxy.Server.{
  Libraries, Network, Request, ServerContext, Connection, refused, unshaken, connected, outgoing,
  at_backend, with_guard, without_guard, failing, succeeding, observing, connection, exchange,
  proceed, serve,
}
use vortex_proxy.Proxy.Server.Exchange.{
  Exchange, selected, guarded, dialing, preparing, sending, returning, pooled, leaving, over,
  after_pop, Proxying, Move, guard, pop, warm, stale, no_connection, connect, prepared, unready,
  uri_panic, no_response, response, give_back, observe, drop_guard, pop_step, push_step,
  connect_step, goes_on, touch,
}

module _ {ℓ} {S R : Type 0} (L : Libraries ℕ S R) {F : Type ℓ} ⦃f : Float F⦄
    {Response Value : Type 0} (net : Network ℕ Response F) (req : Request Value) (i : ℕ) where
  -- Exchange `i` comes to its end in steps of its own, and the context is then `ctx`.
  pub data IsSerial (ctx : ServerContext L F) : Proxying L F → Type ℓ where
    done : {s : Proxying L F} → get_elem? s.exchanges i ≡ some over → s.ctx ≡ ctx → IsSerial ctx s
    next :
        {s t : Proxying L F} {e : Exchange}
        → get_elem? s.exchanges i ≡ some e
        → Move L Response Value net req s i e t
        → IsSerial ctx t
        → IsSerial ctx s

  -- The context once the guard is dropped.
  abbrev released : ServerContext L F → SharedBackend → ServerContext L F
  released ctx b = at_backend L net req ctx b (without_guard L net req)

  leaves :
      (s : Proxying L F) (addr : SocketAddr) (b : SharedBackend)
      → get_elem? s.exchanges i ≡ some (leaving addr b)
      → IsSerial (released s.ctx b) s
  leaves s addr b at = next at (drop_guard addr b) (done (get_elem?-set s.exchanges i over at) refl)

  -- The context after a response: the breaker, the pool, the average.
  abbrev answered_ctx : ServerContext L F → SharedBackend → SocketAddr → ℕ → ServerContext L F
  answered_ctx ctx b addr n =
      let ctx' = at_backend L net req ctx b (succeeding L net req) in
      at_backend L net req
        (record ctx' {
          connection_pool = push L.queues L.pools net.closed_at_push ctx'.connection_pool addr n;
        })
        b (observing L net req)

  sending-IsSerial :
      (s : Proxying L F) (addr : SocketAddr) (b : SharedBackend) (n : ℕ)
      → L.parses_uri (outgoing L net req addr).uri ≡ true
      → net.ready n ≡ true
      → get_elem? s.exchanges i ≡ some (sending addr b n)
      → IsSerial (released (exchange L net req s.ctx b addr n).0 b) s
  unfolding exchange push_step
  sending-IsSerial s addr b n p e at =
      elim (Option-cases (net.send_request n (outgoing L net req addr))) [
        | inl o ↦
            let same : (exchange L net req s.ctx b addr n).0
                ≡ at_backend L net req s.ctx b (failing L net req) =
              ground (arith, p, e, o) in
            subst (λ ctx. IsSerial (released ctx b) s) (sym same)
              (next at (no_response addr b n o)
                (leaves _ addr b (get_elem?-set s.exchanges i (leaving addr b) at)))
        | inr (body, o) ↦
            let got = get_elem?-set s.exchanges i (returning addr b n) at in
            let given = get_elem?-set _ i (pooled addr b) got in
            let seen = get_elem?-set _ i (leaving addr b) given in
            let same : (exchange L net req s.ctx b addr n).0 ≡ answered_ctx s.ctx b addr n =
              ground (arith, p, e, o) in
            subst (λ ctx. IsSerial (released ctx b) s) (sym same)
              (next at (response addr b n o) (
                next got (give_back addr b n) (next given (observe addr b) (leaves _ addr b seen))))
      ]

  exchange-IsSerial :
      (s : Proxying L F) (addr : SocketAddr) (b : SharedBackend) (n : ℕ)
      → get_elem? s.exchanges i ≡ some (preparing addr b n)
      → IsSerial (released (exchange L net req s.ctx b addr n).0 b) s
  unfolding exchange push_step
  exchange-IsSerial s addr b n at = elim (Bool-cases (L.parses_uri (outgoing L net req addr).uri)) [
    | inr p ↦
        let same : exchange L net req s.ctx b addr n ≡ (s.ctx, Server.uri_panicked) =
          ground (arith, p) in
        subst (λ r. IsSerial (released r.0 b) s) (sym same)
          (next at (uri_panic addr b n p)
            (leaves _ addr b (get_elem?-set s.exchanges i (leaving addr b) at)))
    | inl p ↦ elim (Bool-cases (net.ready n)) [
      | inr e ↦
          let same : exchange L net req s.ctx b addr n ≡ (s.ctx, Server.unprepared) =
            ground (arith, p, e) in
          subst (λ r. IsSerial (released r.0 b) s) (sym same)
            (next at (unready addr b n p e)
              (leaves _ addr b (get_elem?-set s.exchanges i (leaving addr b) at)))
      | inl e ↦
          let asked = get_elem?-set s.exchanges i (sending addr b n) at in
          next at (prepared addr b n p e)
            (sending-IsSerial (goes_on L s i (sending addr b n)) addr b n p e asked)
    ]
  ]

  proceed-IsSerial :
      (s : Proxying L F) (addr : SocketAddr) (b : SharedBackend) (c : Connection ℕ)
      → net.connect addr ≡ c
      → ((n : ℕ) → c ≡ connected n → n ≡ length s.opened)
      → get_elem? s.exchanges i ≡ some (dialing addr b)
      → IsSerial (released (proceed L net req s.ctx b addr c).0 b) s
  unfolding proceed connect_step
  proceed-IsSerial s addr b refused e numbered at =
      next at (no_connection addr b (inl e))
        (leaves _ addr b (get_elem?-set s.exchanges i (leaving addr b) at))
  proceed-IsSerial s addr b unshaken e numbered at =
      next at (no_connection addr b (inr e))
        (leaves _ addr b (get_elem?-set s.exchanges i (leaving addr b) at))
  proceed-IsSerial s addr b (connected n) e numbered at =
      subst (λ k. IsSerial (released (exchange L net req s.ctx b addr k).0 b) s)
        (sym (numbered n refl))
        (next at (connect addr b (subst (λ k. net.connect addr ≡ connected k) (numbered n refl) e))
          (exchange-IsSerial _ addr b (length s.opened)
            (get_elem?-set s.exchanges i (preparing addr b (length s.opened)) at)))

  warm-connection :
      (addr : SocketAddr) (n : ℕ)
      → net.pooled_ready n ≡ true
      → connection L net req addr (some n) ≡ connected n
  unfolding connection
  warm-connection addr n e = ground (arith, e)

  stale-connection :
      (addr : SocketAddr) (n : ℕ)
      → net.pooled_ready n ≡ false
      → connection L net req addr (some n) ≡ net.connect addr
  unfolding connection
  stale-connection addr n e = ground (arith, e)

  connection-IsSerial :
      (s : Proxying L F) (addr : SocketAddr) (b : SharedBackend) (o : Option ℕ)
      → ((n : ℕ) → net.connect addr ≡ connected n → n ≡ length s.opened)
      → get_elem? s.exchanges i ≡ some (after_pop addr b o)
      → IsSerial (released (proceed L net req s.ctx b addr (connection L net req addr o)).0 b) s
  unfolding connection
  connection-IsSerial s addr b none numbered at =
      proceed-IsSerial s addr b (net.connect addr) refl numbered at
  connection-IsSerial s addr b (some n) numbered at = elim (Bool-cases (net.pooled_ready n)) [
    | inl e ↦
        subst (λ c. IsSerial (released (proceed L net req s.ctx b addr c).0 b) s)
          (sym (warm-connection addr n e))
          (unfold proceed in
            (next at (warm addr b n e)
              (exchange-IsSerial _ addr b n (get_elem?-set s.exchanges i (preparing addr b n) at))))
    | inr e ↦
        subst (λ c. IsSerial (released (proceed L net req s.ctx b addr c).0 b) s)
          (sym (stale-connection addr n e))
          (next at (stale addr b n e) (
            proceed-IsSerial _ addr b (net.connect addr) refl numbered
              (get_elem?-set s.exchanges i (dialing addr b) at)))
  ]

  serve-IsSerial :
      (s : Proxying L F) (b : SharedBackend)
      → ((n : ℕ) → net.connect (s.ctx.heap b).addr ≡ connected n → n ≡ length s.opened)
      → get_elem? s.exchanges i ≡ some (guarded (s.ctx.heap b).addr b)
      → IsSerial (released (serve L net req s.ctx b).0 b) s
  unfolding serve pop_step
  serve-IsSerial s b numbered at =
      let addr = (s.ctx.heap b).addr in
      let popped = (try_pop L.queues L.pools net.closed_at_pop s.ctx.connection_pool addr).1 in
      next at (pop addr b) (
        connection-IsSerial _ addr b popped numbered
          (get_elem?-set s.exchanges i (after_pop addr b popped) at))

  -- For a request whose backend has just been selected, whatever the network does, if a handshake that
  -- succeeds gives the sender of the next number: steps of this request alone lead to its end, and leave
  -- the context that the rest of `forward_request`, from the guard on, returns.
  pub guarded-IsSerial :
      (s : Proxying L F) (b : SharedBackend)
      → get_elem? s.exchanges i ≡ some (selected (s.ctx.heap b).addr b)
      → ((n : ℕ) → net.connect (s.ctx.heap b).addr ≡ connected n → n ≡ length s.opened)
      → IsSerial (Server.guarded L net req s.ctx b).0 s
  unfolding Server.guarded
  guarded-IsSerial s b at numbered =
      let addr = (s.ctx.heap b).addr in
      let u = goes_on L (touch L net req s b (with_guard L net req)) i (guarded addr b) in
      let same : addr ≡ (u.ctx.heap b).addr = ground arith in
      next at (guard addr b) (
        serve-IsSerial u b
          (subst (λ a. (n : ℕ) → net.connect a ≡ connected n → n ≡ length s.opened) same numbered)
          (subst (λ a. get_elem? u.exchanges i ≡ some (guarded a b)) same
            (get_elem?-set s.exchanges i (guarded addr b) at)))
