-- ===== src/Proxy/Server.antt =====
-- `forward_request` of vortex-proxy/src/server.rs, for a request that no other request comes between.
-- What the libraries, the network and the clock give is in `Libraries` and `Network`. The Wasm filter
-- is in front of it in `WasmFilter`; spans and metrics have no part in the model.
pub mod Accounts
pub mod Limits
pub mod Breakers
pub mod Upstream
pub mod Outage
pub mod WasmFilter
pub mod Frame
pub mod Metering
pub mod Phases
pub mod Listener
pub mod Exchange
pub mod Sample
mod Tests
use vortex_proxy.Prelude.{
  ℕ, ◌==◌, Bool, true, false, Option, none, some, List, [], ◌∷◌, ◌++◌, if◌then◌else◌, Text, bytes,
  update,
}
use vortex_proxy.Float.{Float}
use vortex_proxy.Net.{IpAddr, SocketAddr, IpAddr-discrete, SocketAddr-discrete}
use vortex_proxy.DashMap.{DashMap}
use vortex_proxy.SegQueue.{SegQueue}
use vortex_proxy.Ebpf.{XdpRateLimiter}
use vortex_proxy.Core.ArcSwap.{ArcSwap}
use vortex_proxy.Core.RateLimit.{RateLimitResult, RateStore}
use vortex_proxy.Core.Backend.{Backend, SharedBackend, Heap}
use vortex_proxy.Core.CircuitBreaker.{CircuitBreaker, record_success, record_failure}
use vortex_proxy.Core.Ewma.{increment_active, drop_guard, observe_latency}
use vortex_proxy.Core.Routing.{RoutingTable}
use vortex_proxy.Core.Selector.{select_best_backend}
use vortex_proxy.Proxy.BanManager.{BanManager, ban_ip}
use vortex_proxy.Proxy.ConnectionPool.{ConnectionPool, try_pop, push}
use vortex_proxy.Proxy.Headers.{HeaderMap, request_cost}

-- `S` is the state of the XDP limiter, `R` that of the rate store.
pub record Libraries (Sender S R : Type 0) : Type 1 where
  pub cells : ArcSwap (List SharedBackend)
  pub queues : SegQueue Sender
  pub pools : DashMap SocketAddr queues.Queue SocketAddr-discrete
  pub bans : DashMap IpAddr ℕ IpAddr-discrete
  pub limiter : XdpRateLimiter S
  pub store : RateStore R
  -- `to_string` of an address, without its port and with it
  pub display : IpAddr → Text
  pub display_addr : SocketAddr → Text
  -- Whether the `http` crate parses a text as a URI; it bounds the length, for one.
  pub parses_uri : Text → Bool

-- What is sent upstream: the URI and the `Host` header, as texts. The method, the body and the client's
-- other headers pass through, and have no part in what the proxy does.
pub record Outgoing : Type 0 where
  pub uri : Text
  pub host : Text

pub data Connection (Sender : Type 0) : Type 0 where
  refused unshaken : Connection Sender
  connected : Sender → Connection Sender

-- What the world answers while one request is served: the clocks as they are read, whether a sender is
-- closed or ready when it is asked, and what the upstream does.
pub record Network {ℓ} (Sender Response : Type 0) (F : Type ℓ) : Type ℓ where
  pub ban_instant : ℕ
  pub select_secs : ℕ
  pub failure_secs : ℕ
  pub closed_at_pop : Sender → Bool
  pub closed_at_push : Sender → Bool
  pub pooled_ready : Sender → Bool
  pub connect : SocketAddr → Connection Sender
  pub ready : Sender → Bool
  pub send_request : Sender → Outgoing → Option Response
  pub rtt_ms : F

pub record Request (Value : Type 0) : Type 0 where
  pub headers : HeaderMap Value
  -- `path_and_query()`
  pub path : Option Text

pub data Reply (Response : Type 0) : Type 0 where
  too_many_requests : ℕ → Reply Response
  no_healthy_upstream upstream_connection_failed : Reply Response
  upstream_handshake_failed upstream_request_failed : Reply Response
  -- `Err("Failed to prepare connection sender")`
  unprepared : Reply Response
  -- The `unwrap` of the rewritten URI: nothing is answered, and the connection's task ends.
  uri_panicked : Reply Response
  forwarded : Response → Reply Response

-- The reset time of a result that does not allow the request. A failed call limits nothing.
unfoldable pub limited : Option RateLimitResult → Option ℕ
limited none = none
limited (some res) = if res.allowed then none else some res.reset_after

module _ {Sender S R : Type 0} (L : Libraries Sender S R) where
  pub record ServerContext {ℓ} (F : Type ℓ) : Type ℓ where
    pub routing_table : RoutingTable L.cells
    pub heap : Heap F
    pub connection_pool : ConnectionPool L.queues L.pools
    pub rate_store : R
    pub ban_manager : BanManager L.limiter L.bans

  module _ {ℓ} {F : Type ℓ} ⦃f : Float F⦄ {Response Value : Type 0}
      (net : Network Sender Response F) (req : Request Value) where
    abbrev pub at_backend :
        ServerContext F → SharedBackend → (Backend F → Backend F) → ServerContext F
    at_backend ctx b change = record ctx { heap = update ctx.heap b (change (ctx.heap b)) }

    abbrev pub with_guard : Backend F → Backend F
    with_guard backend = record backend { ewma = increment_active backend.ewma }

    abbrev pub without_guard : Backend F → Backend F
    without_guard backend = record backend { ewma = drop_guard backend.ewma }

    abbrev pub failing : Backend F → Backend F
    failing backend = record backend {
      circuit_breaker = record_failure backend.circuit_breaker net.failure_secs;
    }

    abbrev pub succeeding : Backend F → Backend F
    succeeding backend = record backend { circuit_breaker = record_success backend.circuit_breaker }

    abbrev pub observing : Backend F → Backend F
    observing backend = record backend { ewma = observe_latency backend.ewma net.rtt_ms }

    -- A warm sender that is ready, or a new connection. One that is not ready is dropped.
    unfoldable pub connection : SocketAddr → Option Sender → Connection Sender
    connection addr none = net.connect addr
    connection addr (some s) = if net.pooled_ready s then connected s else net.connect addr

    unfoldable pub outgoing : SocketAddr → Outgoing
    outgoing addr = record {
      uri =
          bytes "http://"
          ++ L.display_addr addr
          ++ (elim req.path [ none ↦ bytes "/" | some path ↦ path ]);
      host = L.display_addr addr;
    }

    -- From the sender on: the request, the breaker, the pool, the average.
    unfoldable pub exchange :
        ServerContext F → SharedBackend → SocketAddr → Sender → ServerContext F × Reply Response
    unfolding outgoing
    exchange ctx b addr sender =
        if L.parses_uri (outgoing addr).uri
        then (if net.ready sender
            then elim (net.send_request sender (outgoing addr)) [
              | none ↦ (at_backend ctx b failing, upstream_request_failed)
              | some response ↦ (
                at_backend
                    (record (at_backend ctx b succeeding) {
                      connection_pool =
                          push L.queues L.pools net.closed_at_push ctx.connection_pool addr sender;
                    })
                    b observing,
                forwarded response,
              )
            ]
            else (ctx, unprepared))
        else (ctx, uri_panicked)

    unfoldable pub proceed :
        ServerContext F
        → SharedBackend
        → SocketAddr
        → Connection Sender
        → ServerContext F × Reply Response
    unfolding exchange
    proceed ctx b addr refused = (at_backend ctx b failing, upstream_connection_failed)
    proceed ctx b addr unshaken = (at_backend ctx b failing, upstream_handshake_failed)
    proceed ctx b addr (connected sender) = exchange ctx b addr sender

    -- From the selected backend on, with its guard taken.
    unfoldable pub serve : ServerContext F → SharedBackend → ServerContext F × Reply Response
    unfolding proceed connection
    serve ctx b =
        let addr = (ctx.heap b).addr in
        let (pool, popped) = try_pop L.queues L.pools net.closed_at_pop ctx.connection_pool addr in
        proceed (record ctx { connection_pool = pool }) b addr (connection addr popped)

    -- The guard is dropped wherever `serve` returns.
    unfoldable pub guarded : ServerContext F → SharedBackend → ServerContext F × Reply Response
    unfolding serve
    guarded ctx b =
        let (ctx', reply) = serve (at_backend ctx b with_guard) b in
        (at_backend ctx' b without_guard, reply)

    unfoldable pub route : ServerContext F → ServerContext F × Reply Response
    unfolding guarded
    route ctx = elim (select_best_backend L.cells ctx.heap net.select_secs ctx.routing_table) [
      | none ↦ (ctx, no_healthy_upstream)
      | some b ↦ guarded ctx b
    ]

    -- 1000 requests in 60 s.
    unfoldable pub check_limit : ServerContext F → SocketAddr → R × Option RateLimitResult
    check_limit ctx client =
        L.store.check_rate_limit ctx.rate_store (bytes "ip:" ++ L.display client.ip) 1000 60000
          (request_cost req.headers)

    -- A ban is for 300 s, in the milliseconds of the clock.
    unfoldable pub refuse : ServerContext F → SocketAddr → ℕ → ServerContext F × Reply Response
    refuse ctx client reset_after = (
      record ctx {
        ban_manager = ban_ip L.limiter L.bans ctx.ban_manager client.ip 300000 net.ban_instant;
      },
      too_many_requests reset_after,
    )

    unfoldable pub forward_request : ServerContext F → SocketAddr → ServerContext F × Reply Response
    unfolding limited route check_limit refuse
    forward_request ctx client =
        let (store, result) = check_limit ctx client in
        let ctx' = record ctx { rate_store = store } in
        elim (limited result) [
          | some reset_after ↦ refuse ctx' client reset_after
          | none ↦ route ctx'
        ]
