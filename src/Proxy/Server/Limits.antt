-- ===== src/Proxy/Server/Limits.antt =====
-- The rate limit and the bans in server.rs.
use vortex_proxy.Prelude.{
  ℕ, ◌+◌, ◌≡◌, ◌↔◌, refl, sym, Bool, true, false, Bool-cases, inl, inr, none, some, Option,
  Option-cases, arith, subst, ltb,
}
use vortex_proxy.Float.{Float}
use vortex_proxy.Net.{SocketAddr}
use vortex_proxy.Core.RateLimit.{RateLimitResult}
use vortex_proxy.Core.Backend.{SharedBackend}
use vortex_proxy.Core.Selector.{select_best_backend}
use vortex_proxy.Ebpf.{IsLawful}
use vortex_proxy.Proxy.BanManager.{BanManager, ban_ip, is_ip_banned, sweep}
use vortex_proxy.Proxy.BanManager.Lifecycle.{IsAgreed, is_ip_banned-ban_ip}
use vortex_proxy.Proxy.ConnectionPool.{try_pop}
use vortex_proxy.Proxy.Server.{
  Libraries, Network, Request, Reply, too_many_requests, no_healthy_upstream,
  upstream_connection_failed, upstream_handshake_failed, upstream_request_failed, unprepared,
  uri_panicked, forwarded, ServerContext, Connection, refused, unshaken, connected, limited,
  at_backend, with_guard, connection, exchange, proceed, serve, guarded, route, check_limit, refuse,
  forward_request, outgoing,
}

abbrev pub is_limited : {Response : Type 0} → Reply Response → Bool
is_limited (too_many_requests _) = true
is_limited no_healthy_upstream = false
is_limited upstream_connection_failed = false
is_limited upstream_handshake_failed = false
is_limited upstream_request_failed = false
is_limited unprepared = false
is_limited uri_panicked = false
is_limited (forwarded _) = false

-- The rate store answered, did not allow the request, and gave this reset time.
abbrev pub Denied : Option RateLimitResult → ℕ → Type 0
Denied result reset_after =
    (res : RateLimitResult) × (result ≡ some res)
    × (res.allowed ≡ false)
    × (res.reset_after ≡ reset_after)

limited-Denied :
    (result : Option RateLimitResult) (reset_after : ℕ)
    → Denied result reset_after
    → limited result ≡ some reset_after
unfolding limited
limited-Denied none reset_after (res, e, denied, same) = cc
limited-Denied (some r) reset_after (res, e, denied, same) =
    let off : r.allowed ≡ false = ground (arith, e, denied) in
    let at : r.reset_after ≡ reset_after = ground (arith, e, same) in ground (arith, off, at)

Denied-limited :
    (result : Option RateLimitResult) (reset_after : ℕ)
    → limited result ≡ some reset_after
    → Denied result reset_after
unfolding limited
Denied-limited none reset_after h = cc
Denied-limited (some r) reset_after h = elim (Bool-cases r.allowed) [
  | inl e ↦ absurd (ground (arith, e, h))
  | inr e ↦ (r, refl, e, ground (arith, e, h))
]

module _ {ℓ} {Sender S R : Type 0} (L : Libraries Sender S R) {F : Type ℓ} ⦃f : Float F⦄
    {Response Value : Type 0} (net : Network Sender Response F) (req : Request Value) where
  exchange-unlimited :
      (ctx : ServerContext L F) (b : SharedBackend) (addr : SocketAddr) (s : Sender)
      → is_limited (exchange L net req ctx b addr s).1 ≡ false
  unfolding exchange
  exchange-unlimited ctx b addr s = elim (Bool-cases (L.parses_uri (outgoing L net req addr).uri)) [
    | inr p ↦ ground (arith, p)
    | inl p ↦ elim (Bool-cases (net.ready s)) [
      | inr e ↦ ground (arith, p, e)
      | inl e ↦ elim (Option-cases (net.send_request s (outgoing L net req addr))) [
        | inl o ↦ ground (arith, p, e, o)
        | inr (response, o) ↦ ground (arith, p, e, o)
      ]
    ]
  ]

  proceed-unlimited :
      (ctx : ServerContext L F) (b : SharedBackend) (addr : SocketAddr) (c : Connection Sender)
      → is_limited (proceed L net req ctx b addr c).1 ≡ false
  unfolding proceed
  proceed-unlimited ctx b addr refused = refl
  proceed-unlimited ctx b addr unshaken = refl
  proceed-unlimited ctx b addr (connected s) = exchange-unlimited ctx b addr s

  guarded-unlimited :
      (ctx : ServerContext L F) (b : SharedBackend) → is_limited (guarded L net req ctx b).1 ≡ false
  unfolding guarded serve
  guarded-unlimited ctx b =
      let held = at_backend L net req ctx b (with_guard L net req) in
      let addr = (held.heap b).addr in
      let popped = try_pop L.queues L.pools net.closed_at_pop held.connection_pool addr in
      proceed-unlimited (record held { connection_pool = popped.0 }) b addr
        (connection L net req addr popped.1)

  pub route-unlimited : (ctx : ServerContext L F) → is_limited (route L net req ctx).1 ≡ false
  unfolding route
  route-unlimited ctx =
      elim (Option-cases (select_best_backend L.cells ctx.heap net.select_secs ctx.routing_table)) [
        | inl e ↦ ground (arith, e)
        | inr (b, e) ↦ ground (arith, e, guarded-unlimited ctx b)
      ]

  -- A request is answered by `too_many_requests` exactly when the rate store answered and did not
  -- allow it, with the reset time of the store's answer.
  pub forward_request-limited :
      (ctx : ServerContext L F) (client : SocketAddr) (reset_after : ℕ)
      → ((forward_request L net req ctx client).1 ≡ too_many_requests reset_after)
        ↔ Denied (check_limit L net req ctx client).1 reset_after
  unfolding forward_request refuse
  forward_request-limited ctx client reset_after =
      let (store, result) = check_limit L net req ctx client in
      elim (Option-cases (limited result)) [
        | inl e ↦
            let routed = route-unlimited (record ctx { rate_store = store }) in
            (
              λ h. absurd (ground (arith, e, h, routed)),
              λ denied. absurd (cc (e, limited-Denied result reset_after denied)),
            )
        | inr (other, e) ↦ (
          λ h. Denied-limited result reset_after (ground (arith, e, h)),
          λ denied. ground (arith, e, limited-Denied result reset_after denied),
        )
      ]

  refused-bans :
      (ctx : ServerContext L F) (client : SocketAddr) (reset_after : ℕ)
      → limited (check_limit L net req ctx client).1 ≡ some reset_after
      → (forward_request L net req ctx client).0.ban_manager
        ≡ ban_ip L.limiter L.bans ctx.ban_manager client.ip 300000 net.ban_instant
  unfolding forward_request refuse
  refused-bans ctx client reset_after e = ground (arith, e)

  -- A client whose request the rate store does not allow is banned for 300 s, where there is a lawful
  -- limiter, which blocks what the ban list has: the ban holds until a sweep, a sweep within the 300 s
  -- leaves it, and a later one lifts it.
  pub forward_request-bans :
      (ctx : ServerContext L F) (client : SocketAddr) (reset_after later : ℕ) (s : S)
      → IsLawful L.limiter
      → IsAgreed L.limiter L.bans ctx.ban_manager
      → ctx.ban_manager.limiter ≡ some s
      → limited (check_limit L net req ctx client).1 ≡ some reset_after
      → (is_ip_banned L.limiter L.bans
            (forward_request L net req ctx client).0.ban_manager
            client.ip
            later
          ≡ true)
        × (is_ip_banned L.limiter L.bans
              (sweep L.limiter L.bans (forward_request L net req ctx client).0.ban_manager later)
              client.ip
              later
            ≡ ltb later (net.ban_instant + 300000))
  forward_request-bans ctx client reset_after later s laws agreed held e =
      subst
        (λ m.
          (is_ip_banned L.limiter L.bans m client.ip later ≡ true)
          × (is_ip_banned L.limiter L.bans (sweep L.limiter L.bans m later) client.ip later
              ≡ ltb later (net.ban_instant + 300000)))
        (sym (refused-bans ctx client reset_after e))
        (is_ip_banned-ban_ip L.limiter L.bans laws ctx.ban_manager s client.ip 300000
          net.ban_instant later agreed held)

  -- The same server with another ban list.
  abbrev pub with_bans : ServerContext L F → BanManager L.limiter L.bans → ServerContext L F
  with_bans ctx m = record ctx { ban_manager = m }

  exchange-with_bans :
      (ctx : ServerContext L F) (m : BanManager L.limiter L.bans) (b : SharedBackend)
      (addr : SocketAddr) (s : Sender)
      → (exchange L net req (with_bans ctx m) b addr s).1 ≡ (exchange L net req ctx b addr s).1
  unfolding exchange
  exchange-with_bans ctx m b addr s =
      elim (Bool-cases (L.parses_uri (outgoing L net req addr).uri)) [
        | inr p ↦ ground (arith, p)
        | inl p ↦ elim (Bool-cases (net.ready s)) [
          | inr e ↦ ground (arith, p, e)
          | inl e ↦ elim (Option-cases (net.send_request s (outgoing L net req addr))) [
            | inl o ↦ ground (arith, p, e, o)
            | inr (response, o) ↦ ground (arith, p, e, o)
          ]
        ]
      ]

  proceed-with_bans :
      (ctx : ServerContext L F) (m : BanManager L.limiter L.bans) (b : SharedBackend)
      (addr : SocketAddr) (c : Connection Sender)
      → (proceed L net req (with_bans ctx m) b addr c).1 ≡ (proceed L net req ctx b addr c).1
  unfolding proceed
  proceed-with_bans ctx m b addr refused = refl
  proceed-with_bans ctx m b addr unshaken = refl
  proceed-with_bans ctx m b addr (connected s) = exchange-with_bans ctx m b addr s

  guarded-with_bans :
      (ctx : ServerContext L F) (m : BanManager L.limiter L.bans) (b : SharedBackend)
      → (guarded L net req (with_bans ctx m) b).1 ≡ (guarded L net req ctx b).1
  unfolding guarded serve
  guarded-with_bans ctx m b =
      let held = at_backend L net req ctx b (with_guard L net req) in
      let addr = (held.heap b).addr in
      let popped = try_pop L.queues L.pools net.closed_at_pop held.connection_pool addr in
      proceed-with_bans (record held { connection_pool = popped.0 }) m b addr
        (connection L net req addr popped.1)

  route-with_bans :
      (ctx : ServerContext L F) (m : BanManager L.limiter L.bans)
      → (route L net req (with_bans ctx m)).1 ≡ (route L net req ctx).1
  unfolding route
  route-with_bans ctx m =
      elim (Option-cases (select_best_backend L.cells ctx.heap net.select_secs ctx.routing_table)) [
        | inl e ↦ ground (arith, e)
        | inr (b, e) ↦ ground (arith, e, guarded-with_bans ctx m b)
      ]

  -- The ban list has no part in the answer: with any other list, the reply to a request is the
  -- same.
  pub forward_request-with_bans :
      (ctx : ServerContext L F) (m : BanManager L.limiter L.bans) (client : SocketAddr)
      → (forward_request L net req (with_bans ctx m) client).1
        ≡ (forward_request L net req ctx client).1
  unfolding forward_request refuse check_limit
  forward_request-with_bans ctx m client =
      let (store, result) = check_limit L net req ctx client in
      elim (Option-cases (limited result)) [
        | inl e ↦ ground (arith, e, route-with_bans (record ctx { rate_store = store }) m)
        | inr (other, e) ↦ ground (arith, e)
      ]
