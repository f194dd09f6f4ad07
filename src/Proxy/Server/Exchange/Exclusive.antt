-- ===== src/Proxy/Server/Exchange/Exclusive.antt =====
-- Whose each upstream connection of server.rs is, over all interleavings of requests: one request's, or
-- the pool's, in the queue of the address that it was made to.
use vortex_proxy.Prelude.{
  ℕ, ◌≡◌, ◌∙◌, ap, some, [], ◌∷◌, All-append, get_elem?, total-append, arith, All-get_elem?,
}
use vortex_proxy.Float.{Float}
use vortex_proxy.Net.{SocketAddr}
use vortex_proxy.Proxy.ConnectionPool.{new}
use vortex_proxy.Proxy.ConnectionPool.Pooling.{idle-new, idle, try_pop-idle, push-idle}
use vortex_proxy.Proxy.Server.{Libraries, Network, Request, ServerContext}
use vortex_proxy.Proxy.Server.Exchange.Ownership.{IsExclusive, keeps, pops, pushes, connects}
use vortex_proxy.Proxy.Server.Exchange.Home.{holds, IsHome}
use vortex_proxy.Proxy.Server.Exchange.{
  Exchange, selected, guarded, checking, dialing, preparing, sending, returning, pooled, leaving,
  over, Proxying, start, Move, guard, pop, warm, stale, no_connection, connect, prepared, unready,
  uri_panic, no_response, response, give_back, observe, drop_guard, cancel, Step, select, move,
  probe_round, replace_table, Reach, here, later, pop_step, push_step, connect_step,
}

module _ {ℓ} {S R : Type 0} (L : Libraries ℕ S R) {F : Type ℓ} where
  abbrev pub Exclusive : Proxying L F → Type 0
  Exclusive s = IsExclusive (idle L.queues L.pools s.ctx.connection_pool) s.opened s.exchanges

  start-Exclusive :
      (ctx : ServerContext L F)
      → ctx.connection_pool ≡ new L.queues L.pools
      → Exclusive (start L ctx)
  start-Exclusive ctx empty =
      let none_idle = λ (addr : SocketAddr).
        ap (λ pool. idle L.queues L.pools pool addr) empty ∙ idle-new L.queues L.pools addr in
      record {
        pool_home = λ addr. rw (none_idle addr) tt;
        held_home = tt;
        once = λ addr n. rw (none_idle addr) (omega arith);
      }

module _ {ℓ} {S R : Type 0} (L : Libraries ℕ S R) {F : Type ℓ} ⦃f : Float F⦄
    {Response Value : Type 0} where
  Move-Exclusive :
      (net : Network ℕ Response F) (req : Request Value) (s : Proxying L F) (i : ℕ) {e : Exchange}
      {t : Proxying L F}
      → get_elem? s.exchanges i ≡ some e
      → Move L Response Value net req s i e t
      → Exclusive L s
      → Exclusive L t
  unfolding pop_step push_step connect_step
  Move-Exclusive net req s i at (guard addr b) v =
      keeps v i (selected addr b) (guarded addr b) at tt (λ n. omega arith)
  Move-Exclusive net req s i at (pop addr b) v =
      let closed = net.closed_at_pop in
      let (popped, here_left, elsewhere) =
        try_pop-idle L.queues L.pools closed s.ctx.connection_pool addr in
      rw popped (pops v i closed addr b _ at here_left elsewhere)
  Move-Exclusive net req s i at (warm addr b n ready) v =
      keeps v i (checking addr b n) (preparing addr b n) at
        (All-get_elem? (IsHome s.opened) s.exchanges i at v.held_home) (λ k. omega arith)
  Move-Exclusive net req s i at (stale addr b n e) v =
      keeps v i (checking addr b n) (dialing addr b) at tt (λ k. omega arith)
  Move-Exclusive net req s i at (no_connection addr b e) v =
      keeps v i (dialing addr b) (leaving addr b) at tt (λ k. omega arith)
  Move-Exclusive net req s i at (connect addr b e) v = connects v i addr b at
  Move-Exclusive net req s i at (prepared addr b n p ready) v =
      keeps v i (preparing addr b n) (sending addr b n) at
        (All-get_elem? (IsHome s.opened) s.exchanges i at v.held_home) (λ k. omega arith)
  Move-Exclusive net req s i at (unready addr b n p e) v =
      keeps v i (preparing addr b n) (leaving addr b) at tt (λ k. omega arith)
  Move-Exclusive net req s i at (uri_panic addr b n e) v =
      keeps v i (preparing addr b n) (leaving addr b) at tt (λ k. omega arith)
  Move-Exclusive net req s i at (no_response addr b n e) v =
      keeps v i (sending addr b n) (leaving addr b) at tt (λ k. omega arith)
  Move-Exclusive net req s i at (response addr b n got) v =
      keeps v i (sending addr b n) (returning addr b n) at
        (All-get_elem? (IsHome s.opened) s.exchanges i at v.held_home) (λ k. omega arith)
  Move-Exclusive net req s i at (give_back addr b n) v =
      let (here_left, elsewhere) =
        push-idle L.queues L.pools net.closed_at_push s.ctx.connection_pool addr n in
      pushes v i (net.closed_at_push n) addr b n _ at here_left elsewhere
  Move-Exclusive net req s i at (observe addr b) v =
      keeps v i (pooled addr b) (leaving addr b) at tt (λ k. omega arith)
  Move-Exclusive net req s i at (drop_guard addr b) v =
      keeps v i (leaving addr b) over at tt (λ k. omega arith)
  Move-Exclusive net req s i at (cancel e' addr b waits) v =
      keeps v i e' (leaving addr b) at tt (λ k. omega arith)

  Step-Exclusive :
      (s : Proxying L F) {t : Proxying L F}
      → Step L Response Value s t
      → Exclusive L s
      → Exclusive L t
  Step-Exclusive s (select now b found) v = record {
    pool_home = v.pool_home;
    held_home =
        All-append (IsHome s.opened) s.exchanges (selected (s.ctx.heap b).addr b ∷ []) v.held_home
          (tt, tt);
    once = λ addr n. omega (
      arith,
      v.once addr n,
      total-append (holds n) s.exchanges (selected (s.ctx.heap b).addr b ∷ []),
    );
  }
  Step-Exclusive s (move i net req e at m) v = Move-Exclusive net req s i at m v
  Step-Exclusive s (probe_round connects_to) v = v
  Step-Exclusive s (replace_table backends) v = v

  Reach-Exclusive_on :
      (s : Proxying L F) {t : Proxying L F}
      → Exclusive L s
      → Reach L Response Value s t
      → Exclusive L t
  Reach-Exclusive_on s v here = v
  Reach-Exclusive_on s v (later {t = t} r st) = Step-Exclusive t st (Reach-Exclusive_on s v r)

  -- From a start with an empty pool on, whatever requests come and wherever each of them stops, whatever
  -- the upstreams answer, and whichever clients go away: each idle connection of the pool stands in the
  -- queue of the address that it was made to, each connection that a request holds was made to the
  -- address of the backend that it selected, and no connection is there twice: never do two requests
  -- hold the same one, and none that a request holds is in the pool.
  pub Reach-Exclusive :
      (ctx : ServerContext L F) {t : Proxying L F}
      → ctx.connection_pool ≡ new L.queues L.pools
      → Reach L Response Value (start L ctx) t
      → Exclusive L t
  Reach-Exclusive ctx empty r = Reach-Exclusive_on (start L ctx) (start-Exclusive L ctx empty) r
