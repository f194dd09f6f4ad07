-- ===== src/Proxy/Server/Metering.antt =====
-- The rate limit of server.rs with the Redis store behind it: what the requests of one client cost, over
-- time. Each request comes with its client, the clock, the network, its headers and all else that the
-- server holds when it comes: from one request to the next it is the store alone that carries over.
use vortex_proxy.Prelude.{
  ℕ, ◌+◌, ◌-◌, ◌*◌, ◌≤◌, ◌≡◌, refl, ◌∙◌, ap, Bool, true, false, inl, inr, none, some, Option,
  Option-cases, List, [], ◌∷◌, ◌++◌, map, arith, if◌then◌else◌, Text, text_eq, bytes,
}
use vortex_proxy.Float.{Float}
use vortex_proxy.Net.{IpAddr, SocketAddr}
use vortex_proxy.Core.RateLimit.{RateStore}
use vortex_proxy.Filters.RedisStore.{
  Redis, RedisStore, Answer, result_of, check_rate_limit, redis_store,
}
use vortex_proxy.Filters.RedisStore.Rate.{
  Arrival, IsAscending, last, state_after, total_granted, denies, outcome, share, granted-denies,
  total_granted-rate,
}
use vortex_proxy.Proxy.Headers.{request_cost}
use vortex_proxy.Proxy.Server.{
  Libraries, Reply, Network, Request, ServerContext, limited, check_limit, refuse, forward_request,
}
use vortex_proxy.Proxy.Server.Frame.{route-IsFramed}
use vortex_proxy.Proxy.Server.Limits.{is_limited, route-unlimited}

abbrev pub is_some : Option ℕ → Bool
is_some none = false
is_some (some _) = true

module _ {ℓ} {Sender S R : Type 0} (L : Libraries Sender S R) {F : Type ℓ} ⦃f : Float F⦄
    {Response Value : Type 0} (net : Network Sender Response F) (req : Request Value) where
  forward_request-check_limit :
      (ctx : ServerContext L F) (client : SocketAddr)
      → (forward_request L net req ctx client).0.rate_store ≡ (check_limit L net req ctx client).0
  unfolding forward_request refuse
  forward_request-check_limit ctx client =
      let (store, result) = check_limit L net req ctx client in
      elim (Option-cases (limited result)) [
        | inr (reset_after, e) ↦ ground (arith, e)
        | inl e ↦
            ground (arith, e, (route-IsFramed L net req (record ctx { rate_store = store })).store)
      ]

  is_limited-forward_request :
      (ctx : ServerContext L F) (client : SocketAddr)
      → is_limited (forward_request L net req ctx client).1
        ≡ is_some (limited (check_limit L net req ctx client).1)
  unfolding forward_request refuse
  is_limited-forward_request ctx client =
      let (store, result) = check_limit L net req ctx client in
      elim (Option-cases (limited result)) [
        | inr (reset_after, e) ↦ ground (arith, e)
        | inl e ↦ ground (arith, e, route-unlimited L net req (record ctx { rate_store = store }))
      ]

-- A call of the store limits a request exactly if its script denies it.
limited-result_of :
    (Rd : Redis) (store : RedisStore Rd) (o : Option (Rd.State × Answer Rd))
    → is_some (limited (result_of Rd store o).1) ≡ denies Rd o
unfolding limited
limited-result_of Rd store none = refl
limited-result_of Rd store (some (s, (flag, remaining, reset))) = ground arith

state-result_of :
    (Rd : Redis) (store : RedisStore Rd) (o : Option (Rd.State × Answer Rd))
    → (result_of Rd store o).0 ≡ record store { state = state_after Rd store.state o }
state-result_of Rd store none = refl
state-result_of Rd store (some (s, answer)) = refl

-- A request, and the server as it is when the request comes, but for its store.
pub record Call {ℓ} {Sender S R : Type 0} (L : Libraries Sender S R) (F : Type ℓ)
    (Response Value : Type 0) : Type ℓ where
  pub at : ℕ
  pub client : SocketAddr
  pub net : Network Sender Response F
  pub req : Request Value
  pub ctx : ServerContext L F

-- The key of a client.
abbrev pub key_of : {Sender S R : Type 0} → Libraries Sender S R → IpAddr → Text
key_of L ip = bytes "ip:" ++ L.display ip

module _ {ℓ} {Sender S : Type 0} (Rd : Redis) (L : Libraries Sender S (RedisStore Rd)) {F : Type ℓ}
    {Response Value : Type 0} where
  abbrev pub arrival : Call L F Response Value → Arrival
  arrival c = record { at = c.at; key = key_of L c.client.ip; cost = request_cost c.req.headers }

  -- The server when the request comes.
  abbrev pub arrived : RedisStore Rd → Call L F Response Value → ServerContext L F
  arrived store c = record c.ctx { rate_store = record store { now_ms = c.at } }

module _ {ℓ} {Sender S : Type 0} (Rd : Redis) (L : Libraries Sender S (RedisStore Rd)) {F : Type ℓ}
    ⦃f : Float F⦄ {Response Value : Type 0} where
  -- What the server makes of the request.
  abbrev reply_to : RedisStore Rd → Call L F Response Value → ServerContext L F × Reply Response
  reply_to store c = forward_request L c.net c.req (arrived Rd L store c) c.client

  -- What a request costs the clients of `ip`: nothing where it is another's, or limited.
  abbrev charge : IpAddr → Call L F Response Value → Reply Response → ℕ
  charge ip c reply =
      if text_eq (key_of L ip) (key_of L c.client.ip)
      then (if is_limited reply then 0 else request_cost c.req.headers)
      else 0

  -- What the requests from `ip` that are not answered by `too_many_requests` cost in all.
  unfoldable pub served_cost : IpAddr → RedisStore Rd → List (Call L F Response Value) → ℕ
  served_cost ip store [] = 0
  served_cost ip store (c ∷ calls) =
      let (ctx, reply) = reply_to store c in charge ip c reply + served_cost ip ctx.rate_store calls

  module _ (behind : L.store ≡ redis_store Rd) where
    -- What the script makes of the request.
    abbrev outcome_of : RedisStore Rd → Call L F Response Value → Option (Rd.State × Answer Rd)
    outcome_of store c = outcome Rd 1000 60000 store.state (arrival Rd L c)

    check_limit-outcome :
        (store : RedisStore Rd) (c : Call L F Response Value)
        → store.reachable ≡ true
        → check_limit L c.net c.req (arrived Rd L store c) c.client
          ≡ result_of Rd (record store { now_ms = c.at }) (outcome_of store c)
    unfolding check_limit check_rate_limit redis_store
    check_limit-outcome store c up =
        ap
          (λ (rates : RateStore (RedisStore Rd)).
            rates.check_rate_limit (record store { now_ms = c.at }) (key_of L c.client.ip) 1000
              60000 (request_cost c.req.headers))
          behind
        ∙ ground (arith, up)

    -- The store after a request, and whether the request was limited, by the script's outcome.
    store-outcome :
        (store : RedisStore Rd) (c : Call L F Response Value)
        → store.reachable ≡ true
        → (reply_to store c).0.rate_store
          ≡ record store { now_ms = c.at; state = state_after Rd store.state (outcome_of store c) }
    store-outcome store c up =
        forward_request-check_limit L c.net c.req (arrived Rd L store c) c.client
        ∙ ap (λ r. r.0) (check_limit-outcome store c up)
        ∙ state-result_of Rd (record store { now_ms = c.at }) (outcome_of store c)

    limited-outcome :
        (store : RedisStore Rd) (c : Call L F Response Value)
        → store.reachable ≡ true
        → is_limited (reply_to store c).1 ≡ denies Rd (outcome_of store c)
    limited-outcome store c up =
        is_limited-forward_request L c.net c.req (arrived Rd L store c) c.client
        ∙ ap (λ r. is_some (limited r.1)) (check_limit-outcome store c up)
        ∙ limited-result_of Rd (record store { now_ms = c.at }) (outcome_of store c)

    charge-share :
        (ip : IpAddr) (store : RedisStore Rd) (c : Call L F Response Value)
        → store.reachable ≡ true
        → 60 * charge ip c (reply_to store c).1
          ≡ share Rd 1000 60000 (key_of L ip) (arrival Rd L c) (outcome_of store c)
    charge-share ip store c up =
        let granted = granted-denies Rd 1000 60000 store.state (arrival Rd L c) in
        ground (arith, granted, limited-outcome store c up)

    served_cost-total_granted :
        (ip : IpAddr) (store : RedisStore Rd) (calls : List (Call L F Response Value))
        → store.reachable ≡ true
        → 60 * served_cost ip store calls
          ≡ total_granted Rd 1000 60000 (key_of L ip) store.state (map (arrival Rd L) calls)
    unfolding served_cost total_granted
    served_cost-total_granted ip store [] up = refl
    served_cost-total_granted ip store (c ∷ calls) up =
        let next = (reply_to store c).0.rate_store in
        let stored = store-outcome store c up in
        let rest = served_cost-total_granted ip next calls (ap (λ r. r.reachable) stored ∙ up) in
        let moved =
          rest
          ∙ ap (λ r. total_granted Rd 1000 60000 (key_of L ip) r.state (map (arrival Rd L) calls))
              stored in
        omega (arith, moved, charge-share ip store c up)

    -- With Redis behind the rate store and reachable, whatever it has stored; for the requests of all
    -- clients from the time `t` on, with their times in order, whatever each of them meets: in the
    -- network, in its headers, and in all that the server holds besides the store, which other threads
    -- may have changed. Those from one address that are not answered by `too_many_requests` cost at
    -- most 1000 in all, and one more for each 60 ms from `t` to the last request.
    pub served_cost-rate :
        (ip : IpAddr) (store : RedisStore Rd) (calls : List (Call L F Response Value)) (t : ℕ)
        → store.reachable ≡ true
        → IsAscending t (map (arrival Rd L) calls)
        → 60 * served_cost ip store calls ≤ (last t (map (arrival Rd L) calls) - t) + 60000
    served_cost-rate ip store calls t up ascending =
        let bound =
          total_granted-rate Rd 1000 60000 (key_of L ip) store.state (map (arrival Rd L) calls) t
            ascending in
        omega (arith, served_cost-total_granted ip store calls up, bound)
