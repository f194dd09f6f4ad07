-- ===== src/Proxy/Server/Sample.antt =====
-- A small server for the tests: a sender and a response are numbers, and the rate store is a number
-- of tokens that are left.
use vortex_proxy.Prelude.{
  ℕ, ℕ_discrete, ◌-◌, ◌<◌, refl, arith, leb, Bool, true, false, none, some, if◌then◌else◌, Text, [],
  ◌∷◌, length, update, u64_mod, min_by, text_eq, text_gt, sort_by,
}
use vortex_proxy.Float.Fraction.{Fraction, whole, fraction_float}
use vortex_proxy.Net.{SocketAddr, IpAddr, v4, v6, IpAddr-discrete, SocketAddr-discrete}
use vortex_proxy.DashMap.Assoc.{assoc}
use vortex_proxy.SegQueue.{listed}
use vortex_proxy.Ebpf.Mock
use vortex_proxy.Ebpf.Mock.{MockXdpLimiter, mock, mock-IsLawful}
use vortex_proxy.Core.Backend
use vortex_proxy.Core.Backend.{Backend, SharedBackend, Heap, is_healthy}
use vortex_proxy.Core.CircuitBreaker
use vortex_proxy.Core.CircuitBreaker.{state, reset_timeout_secs}
use vortex_proxy.Core.Ewma
use vortex_proxy.Core.RateLimit.{RateStore}
use vortex_proxy.Core.Routing.{snapshot, score_gt}
use vortex_proxy.Core.Selector.{is_eligible, select_best_backend}
use vortex_proxy.Core.Fleet.{cells, fleet, table}
use vortex_proxy.Proxy.BanManager
use vortex_proxy.Proxy.BanManager.{BanManager, is_ip_banned, sweep}
use vortex_proxy.Proxy.BanManager.Lifecycle.{IsAgreed}
use vortex_proxy.Proxy.ConnectionPool
use vortex_proxy.Proxy.Headers.{request_cost, extract_ai_metadata, header_text}
use vortex_proxy.Proxy.Server.{
  Libraries, connected, refused, Network, Request, limited, ServerContext, connection, outgoing,
  exchange, proceed, serve, guarded, route, check_limit, refuse, forward_request,
}

abbrev pub tokens : RateStore ℕ
tokens = record {
  check_rate_limit = λ left key limit period cost.
      if leb cost left
      then (left - cost, some (record { allowed = true; remaining = left - cost; reset_after = 0 }))
      else (left, some (record { allowed = false; remaining = left; reset_after = 500 }));
}

-- The octets of an address.
abbrev octets : IpAddr → Text
octets (v4 a b c d) = a ∷ b ∷ c ∷ d ∷ []
octets (v6 a) = a ∷ []

abbrev pub libraries : Libraries ℕ MockXdpLimiter ℕ
libraries = record {
  cells = cells;
  queues = listed ℕ;
  pools = assoc SocketAddr-discrete;
  bans = assoc IpAddr-discrete;
  limiter = mock;
  store = tokens;
  display = octets;
  display_addr = λ addr. octets addr.ip;
  parses_uri = λ uri. leb (length uri) 65534;
}

-- An upstream that takes every connection and answers with the number of the sender, or refuses.
abbrev pub network : Bool → Network ℕ ℕ Fraction
network accepts = record {
  ban_instant = 1000;
  select_secs = 50;
  failure_secs = 51;
  closed_at_pop = λ s. false;
  closed_at_push = λ s. false;
  pooled_ready = λ s. true;
  connect = λ addr. if accepts then connected addr.port else refused;
  ready = λ s. true;
  send_request = λ s out. some s;
  rtt_ms = whole 40;
}

abbrev pub request : Request Text
request = record { headers = record { get = λ name. none; to_str = λ v. some v }; path = none }

-- Backend 2, the fastest, has failed four times.
abbrev pub shaky : Heap Fraction
shaky =
    update fleet 2
      (record (fleet 2) { circuit_breaker = record { failures = 4; last_failure_time = 40 } })

abbrev pub server : ℕ → ServerContext libraries Fraction
server left = record {
  routing_table = table;
  heap = shaky;
  connection_pool = ConnectionPool.new (listed ℕ) (assoc SocketAddr-discrete);
  rate_store = left;
  ban_manager = BanManager.new mock (assoc IpAddr-discrete) (some Mock.new);
}

abbrev pub client : SocketAddr
client = record { ip = v4 10 0 0 9; port = 5000 }

unfoldable pub program : Unit {0}
unfolding assoc IpAddr-discrete SocketAddr-discrete ℕ_discrete mock Mock.new Mock.contains
    Mock.delete Mock.block_ip Mock.unblock_ip Mock.is_ip_blocked Backend.new Backend.with_models
    Backend.set_healthy is_healthy CircuitBreaker.new CircuitBreaker.record_success
    CircuitBreaker.record_failure state Ewma.new Ewma.calculate_score Ewma.increment_active
    Ewma.drop_guard Ewma.observe_latency Ewma.next_ewma sort_by text_gt text_eq min_by score_gt
    snapshot is_eligible select_best_backend BanManager.new BanManager.ban_ip BanManager.is_blocked
    BanManager.is_ip_banned BanManager.note_ban ConnectionPool.new ConnectionPool.pop_open
    ConnectionPool.try_pop ConnectionPool.queue_at ConnectionPool.push request_cost
    extract_ai_metadata header_text limited connection outgoing exchange proceed serve guarded route
    check_limit refuse forward_request
program = tt

pub shaky-fits : (b : SharedBackend) → (shaky b).ewma.active_requests < u64_mod
unfolding program
shaky-fits b = ground arith

pub server-IsAgreed : (left : ℕ) → IsAgreed mock (assoc IpAddr-discrete) (server left).ban_manager
unfolding program IsAgreed
server-IsAgreed left q = refl
