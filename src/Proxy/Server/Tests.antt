-- ===== src/Proxy/Server/Tests.antt =====
-- The theorems on server.rs at concrete requests.
use vortex_proxy.Prelude.{
  bytes, ℕ, ◌*◌, ◌-◌, ◌≤◌, map, Text, List, [], ◌∷◌, ◌+◌, ◌≡◌, ◌≢◌, ◌↔◌, refl, arith, ltb, true,
  false, some, none,
}
use vortex_proxy.Float.Fraction.{Fraction, fraction_float}
use vortex_proxy.Net.{IpAddr-discrete, SocketAddr, v4}
use vortex_proxy.DashMap.Assoc.{assoc}
use vortex_proxy.Ebpf.Mock
use vortex_proxy.Ebpf.Mock.{MockXdpLimiter, mock, mock-IsLawful}
use vortex_proxy.Core.Selector.{select_best_backend}
use vortex_proxy.Core.Fleet.{cells, table}
use vortex_proxy.Proxy.BanManager
use vortex_proxy.Proxy.BanManager.{BanManager, is_ip_banned, sweep}
use vortex_proxy.Proxy.Server.{
  Libraries, too_many_requests, no_healthy_upstream, upstream_connection_failed, forwarded,
  ServerContext, check_limit, forward_request, Request,
}
use vortex_proxy.Admin.AdminServer.{AdminServer, update_wasm_plugin}
use vortex_proxy.Filters.WasmEngine.{Wasmtime, finished, forever, execute_filter, call_export}
use vortex_proxy.Proxy.Server.WasmFilter.{
  expected, handle_request, handle_request-update_wasm_plugin,
}
use vortex_proxy.Filters.RedisStore.{RedisStore, redis_store}
use vortex_proxy.Filters.RedisStore.Sample.{redis}
use vortex_proxy.Filters.RedisStore.Rate.{last}
use vortex_proxy.Proxy.Server.Metering.{Call, arrival, served_cost, served_cost-rate}
use vortex_proxy.Proxy.Server.Accounts.{accounts, target, forward_request-accounts}
use vortex_proxy.Proxy.Server.Limits.{Denied, forward_request-limited, forward_request-bans}
use vortex_proxy.Proxy.Server.Breakers.{forward_request-isolates}
use vortex_proxy.Proxy.Server.Outage.{forward_request-outage}
use vortex_proxy.Proxy.Server.Upstream.{IsServed, forward_request-IsServed}
use vortex_proxy.Proxy.Server.Sample.{
  libraries, network, request, shaky, server, client, program, shaky-fits, server-IsAgreed,
}

served_by_the_fastest :
    (forward_request libraries (network true) request (server 5) client).1 ≡ forwarded 8082
unfolding program
served_by_the_fastest = refl

out_of_tokens :
    (forward_request libraries (network true) request (server 0) client).1 ≡ too_many_requests 500
unfolding program
out_of_tokens = refl

refused_connection :
    (forward_request libraries (network false) request (server 5) client).1
    ≡ upstream_connection_failed
unfolding program
refused_connection = refl

forward_request-accounts_example :
    (forward_request libraries (network false) request (server 5) client).0.heap 2
    ≡ accounts
        (network false)
        (target libraries (network false) request (server 5))
        (forward_request libraries (network false) request (server 5) client).1
        shaky
        2
forward_request-accounts_example =
    forward_request-accounts libraries (network false) request (server 5) client 2 shaky-fits

forward_request-limited_example :
    ((forward_request libraries (network true) request (server 0) client).1 ≡ too_many_requests 500)
    ↔ Denied (check_limit libraries (network true) request (server 0) client).1 500
forward_request-limited_example =
    forward_request-limited libraries (network true) request (server 0) client 500

forward_request-bans_example :
    (is_ip_banned mock
        (assoc IpAddr-discrete)
        (forward_request libraries (network true) request (server 0) client).0.ban_manager
        client.ip
        2000
      ≡ true)
    × (is_ip_banned mock
          (assoc IpAddr-discrete)
          (sweep mock
            (assoc IpAddr-discrete)
            (forward_request libraries (network true) request (server 0) client).0.ban_manager
            2000)
          client.ip
          2000
        ≡ ltb 2000 (1000 + 300000))
unfolding program
forward_request-bans_example =
    forward_request-bans libraries (network true) request (server 0) client 500 2000 Mock.new
      mock-IsLawful (server-IsAgreed 0) refl refl

-- The client is banned, and served all the same.
abbrev bans : BanManager mock (assoc IpAddr-discrete)
bans = BanManager.ban_ip mock (assoc IpAddr-discrete) (server 5).ban_manager client.ip 300000 900

forward_request-isolates_example :
    select_best_backend cells
      (forward_request libraries (network false) request (server 5) client).0.heap
      81
      table
    ≢ some 2
unfolding program
forward_request-isolates_example =
    forward_request-isolates libraries (network false) request (server 5) client 2 table 81
      shaky-fits refl refl (omega arith) (omega arith) (omega arith) (omega arith)

forward_request-IsServed_example : IsServed libraries (network true) request 8082 (server 5)
unfolding program
forward_request-IsServed_example =
    forward_request-IsServed libraries (network true) request 8082 (server 5) client refl

-- Backend 2 is the whole table.
abbrev alone : ServerContext libraries Fraction
alone = record (server 5) { routing_table = record { backends = 2 ∷ [] } }

abbrev another : Request Text
another = record request { path = some (bytes "/next") }

forward_request-outage_example :
    (forward_request libraries
      (network true)
      another
      (forward_request libraries (network false) request alone client).0
      client).1
    ≡ no_healthy_upstream
unfolding program
forward_request-outage_example =
    forward_request-outage libraries (network false) (network true) request another alone client
      client 2 refl shaky-fits refl refl (omega arith) (omega arith) (omega arith) (omega arith)
      refl

-- An engine on which every module runs forever.
abbrev engine : Wasmtime (Unit {0})
engine = record {
  Module = Unit;
  Linker = Unit;
  Instance = Unit;
  Func = Unit;
  compile = λ wasm_bytes. some tt;
  new_linker = tt;
  func_wrap = λ linker module_name name. none;
  new_instance = λ compiled store. finished (store, some tt);
  instantiate = λ linker compiled store. finished (store, some tt);
  typed_func = λ instance_ name arity. some tt;
  call = λ execute args store. forever;
}

abbrev admin : AdminServer cells Fraction
admin = record {
  shared = record { routing_table = table; heap = shaky; next = 4 };
  active_connections = 1;
  active_wasm_payload = 0 ∷ [];
  poisoned = false;
}

hangs : execute_filter engine tt (1 ∷ 2 ∷ []) ≡ forever
unfolding execute_filter call_export
hangs = refl

handle_request-update_wasm_plugin_example :
    handle_request libraries
      (network true)
      request
      engine
      (update_wasm_plugin cells admin (1 ∷ 2 ∷ [])).0.poisoned
      (update_wasm_plugin cells admin (1 ∷ 2 ∷ [])).0.active_wasm_payload
      (server 5)
      client
    ≡ expected libraries
        (network true)
        request
        engine
        (execute_filter engine tt (1 ∷ 2 ∷ []))
        (server 5)
        client
handle_request-update_wasm_plugin_example =
    handle_request-update_wasm_plugin libraries (network true) request engine cells admin 1 (2 ∷ [])
      (server 5) client

-- The server with Redis behind its rate store.
abbrev metered : Libraries ℕ MockXdpLimiter (RedisStore redis)
metered = record {
  cells = libraries.cells;
  queues = libraries.queues;
  pools = libraries.pools;
  bans = libraries.bans;
  limiter = libraries.limiter;
  store = redis_store redis;
  display = libraries.display;
  display_addr = libraries.display_addr;
  parses_uri = libraries.parses_uri;
}

-- The server of the tests on another store.
abbrev metered_server : RedisStore redis → ServerContext metered Fraction
metered_server store = record {
  routing_table = (server 5).routing_table;
  heap = (server 5).heap;
  connection_pool = (server 5).connection_pool;
  rate_store = store;
  ban_manager = (server 5).ban_manager;
}

abbrev rates : RedisStore redis
rates = record { state = λ key. none; now_ms = 0; reachable = true }

abbrev call_at : ℕ → SocketAddr → Call metered Fraction ℕ Text
call_at t from = record {
  at = t;
  client = from;
  net = network true;
  req = request;
  ctx = metered_server rates;
}

-- Two requests of one client, and one of another in between.
abbrev calls : List (Call metered Fraction ℕ Text)
calls =
    call_at 1000 client
    ∷ call_at 1010 (record client { ip = v4 10 0 0 8 })
    ∷ call_at 1030 client
    ∷ []

served_cost-rate_example :
    60 * served_cost redis metered client.ip rates calls
    ≤ (last 1000 (map (arrival redis metered) calls) - 1000) + 60000
served_cost-rate_example =
    served_cost-rate redis metered refl client.ip rates calls 1000 refl (omega arith)
