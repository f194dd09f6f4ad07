-- ===== src/Lib.antt =====
-- Vortex Proxy: a verification of the reverse proxy's routing, resilience and security parts.
--
-- The proxy takes a client's request (vortex-proxy/src/server.rs), asks the rate store what it costs the
-- client, bans a client that is over its limit (ban_manager.rs, on an XDP limiter of vortex-ebpf), selects
-- a backend by score among the healthy ones whose circuit is not open (vortex-core), takes a warm
-- connection from a pool or opens one, forwards the request, and accounts for the outcome in the
-- backend's circuit breaker and latency average. Operators replace the routing table and the TLS
-- certificates while it runs. main.rs builds these parts and hands them to the accept loop, whose tasks
-- share them with the prober, the sweeper of the bans and the admin server.
--
-- Where the parts are, by the path in the repository:
--   Core.CircuitBreaker   vortex-core/src/domain/circuit_breaker.rs
--   Core.Backend          vortex-core/src/domain/backend.rs and ai_gateway.rs
--   Core.Routing          vortex-core/src/domain/routing.rs
--   Core.RateLimit        vortex-core/src/domain/rate_limit.rs
--   Core.Ewma             vortex-core/src/load_balancer/ewma.rs
--   Core.Selector         vortex-core/src/load_balancer/selector.rs
--   Ebpf, Ebpf.Mock       vortex-ebpf/src/lib.rs, mock.rs
--   Ebpf.Linux, Ebpf.Load vortex-ebpf/src/linux.rs
--   Ebpf.Packet           vortex-ebpf/bpf/xdp_drop.c
--   Filters.ProxyWasm     vortex-filters/src/proxy_wasm/types.rs, host.rs
--   Filters.RedisStore    vortex-filters/src/rate_limiter/redis_store.rs
--   Filters.WasmEngine    vortex-filters/src/wasm_engine.rs
--   Proxy.ConnectionPool  vortex-proxy/src/connection_pool/pool.rs
--   Proxy.BanManager      vortex-proxy/src/ban_manager.rs
--   Proxy.Tls             vortex-proxy/src/tls.rs
--   Proxy.Telemetry       vortex-proxy/src/telemetry.rs
--   Proxy.Headers         vortex-proxy/src/server.rs, extract_ai_metadata
--   Proxy.Server          vortex-proxy/src/server.rs, forward_request
--   Proxy.Server.Listener vortex-proxy/src/server.rs, start_server
--   Proxy.Server.Exchange vortex-proxy/src/server.rs, forward_request in steps
--   Proxy.Main            vortex-proxy/src/main.rs
--   Proxy.Metrics         vortex-proxy/src/metrics_ext.rs
--   Proxy.Quic            vortex-proxy/src/quic_server.rs
--   Proxy.HealthChecker   vortex-proxy/src/health_check/prober.rs
--   Admin.Watcher         vortex-admin/src/k8s_watcher.rs
--   Admin.AdminServer     vortex-admin/src/server.rs
-- A function of the model has the name of the function of the code. A method on `&self` takes the state
-- and returns it with its result. The modules below a part are named for what they prove; Tests has the
-- program's own unit tests and each result that has conditions at a concrete input.
--
-- Libraries that the program calls are interfaces with the laws that it relies on: Core.ArcSwap
-- (arc_swap), DashMap (dashmap; DashMap.Assoc meets it), SegQueue (crossbeam; a list meets it), and Float
-- for what ewma.rs does with an f64 (Float.Fraction meets it with exact fractions), and
-- Filters.RedisStore.Redis for the two commands of the Lua script. Prelude has the
-- machine words, the text of a `&str` as its bytes, and min_by, sort_by and filter of the standard
-- library. The network and the clocks are arguments (Proxy.Server.Network).
--
-- Numbers: a u64 or usize wraps at 2 ^ 64, and a theorem that needs a counter not to wrap says so. An
-- Instant is a number without a bound. The script's Lua numbers are whole milliseconds, as they are
-- where the limit divides the period: for other limits, which the program never uses, the script of the
-- model rounds the emission interval down and is not that of the code. A shared backend is a pointer
-- into a heap (Core.Backend), so that what one holder writes the others read. The only fuel is that of
-- ConnectionPool.pop_open, the loop of try_pop: the length of the queue and one more, with which it
-- ends by an empty queue or an open connection and never by the fuel.
--
-- Interleavings, as step relations over any number of threads or tasks: the compare-exchange loop of
-- observe_latency (Core.Ewma.Concurrent), the atomic operations of the circuit breaker
-- (Core.CircuitBreaker.Concurrent), bans and sweeps (Proxy.BanManager.Concurrent), and the accept loop
-- with its connections and the other parts of the program (Proxy.Server.Listener). There a request has
-- two steps (Proxy.Server.Phases): up to the guard of its backend, and from the answer of the upstream
-- to the reply. Other requests come between them, and the client can go away there. The tasks never
-- read the ban manager, which in this relation may become anything at any time. Proxy.Server.Exchange
-- has the part of forward_request from the selection on in steps of its own, one for each access of
-- what requests share and one for each await; a selection, a pop of the pool and an update of the
-- average are one each. Proxy.Server.Metering puts Redis behind the rate store and follows it from
-- request to request, whatever else changes in between. Everything else is modelled for one caller at a
-- time. Orders that only Ordering::Relaxed allows are left out.
--
-- A call that returns a Result ends with a value, an error or a panic (Outcome). A request can end in a
-- panic, where its URI for the upstream does not parse, and a Wasm filter may run forever
-- (Filters.WasmEngine.Run). What libraries do when the program starts, and the files that it reads, are
-- arguments (Proxy.Main.World, Ebpf.Load.Aya, Filters.WasmEngine.Wasmtime,
-- Proxy.Telemetry.Propagation.Headers, Proxy.Tls.Config.Alpn).
--
-- Not modelled: log lines, spans and counters, record_proxy_ingress_metric, the two seconds that main
-- waits at its end, and whatever the libraries do behind their interfaces.
pub mod Admin
pub mod Core
pub mod DashMap
pub mod Ebpf
pub mod Filters
pub mod Float
pub mod Net
pub mod Outcome
pub mod Prelude
pub mod Proxy
pub mod SegQueue
