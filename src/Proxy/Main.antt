-- ===== src/Proxy/Main.antt =====
-- vortex-proxy/src/main.rs: what `async_main` builds, and what it passes to the accept loop. The files,
-- the libraries and the sockets are in `World`. A heap of backends is built, of which only the places
-- that the table has are ever read. The build is that for Linux. The servers that are spawned beside the accept loop end without
-- effect on it where they fail.
pub mod Startup
pub mod Invariants
pub mod Defaults
pub mod Cores
mod Tests
use vortex_proxy.Prelude.{
  ℕ, ◌==◌, Bool, true, false, List, [], ◌∷◌, Option, none, some, Text, bytes, if◌then◌else◌,
}
use vortex_proxy.Float.{Float}
use vortex_proxy.Net.{SocketAddr, v4}
use vortex_proxy.Core.Backend
use vortex_proxy.Core.Backend.{SharedBackend, Heap}
use vortex_proxy.Core.Routing
use vortex_proxy.Ebpf.Linux.{LinuxXdpLimiter}
use vortex_proxy.Ebpf.Load
use vortex_proxy.Ebpf.Load.{Aya}
use vortex_proxy.Filters.WasmEngine
use vortex_proxy.Proxy.BanManager
use vortex_proxy.Proxy.ConnectionPool
use vortex_proxy.Proxy.Metrics.{Prometheus, Exporter, init_metrics_exporter}
use vortex_proxy.Proxy.Server.{Libraries, ServerContext}
use vortex_proxy.Proxy.Server.Listener.{Listener, bound}
use vortex_proxy.Outcome.{Outcome, ok, err, panic}
use vortex_proxy.Proxy.Telemetry.Setup.{TracerConfig, init_telemetry}
use vortex_proxy.Proxy.Tls.Config.{ServerConfig, load_tls_config}

pub record World (Cert Key R : Type 0) : Type 1 where
  pub install_batch : TracerConfig → Option (Unit {0})
  pub rust_log : Option Text
  pub prometheus : Prometheus
  pub cert_file : Option (List Cert)
  pub key_file : Option (List Key)
  pub accepts : List Cert → Key → Bool
  -- The eBPF object, and the library that loads it.
  pub bpf_file : Option Text
  pub aya : Aya
  -- `Engine::new`, with so many instances in its pool.
  pub engine_new : ℕ → Option (Unit {0})
  pub redis_url : Option Text
  -- `RedisStore::new`, whose pool panics on a URL that is none.
  pub rate_store_new : Text → Outcome R
  -- `TcpListener::bind`
  pub binds : SocketAddr → Bool

-- The address of both initial backends, and that of the proxy.
abbrev pub loopback : ℕ → SocketAddr
loopback port = record { ip = v4 127 0 0 1; port = port }

abbrev pub listen_addr : SocketAddr
listen_addr = record { ip = v4 0 0 0 0; port = 8443 }

-- The accept loop, or an end: a panic before it, or a return of `Ok(())` after it could not bind.
pub data Running {ℓ} (A : Type ℓ) : Type ℓ where
  running : A → Running A
  returned panicked : Running A

-- The tasks that are spawned beside the accept loop, and how they are called. The sweeper runs only
-- with a limiter, and the others end where they cannot bind or connect.
pub record Services : Type 0 where
  pub prober_interval_ms : ℕ
  pub admin_socket : Text
  pub quic_addr : SocketAddr
  pub sweep_interval_secs : ℕ

unfoldable pub services : Services
services = record {
  prober_interval_ms = 5000;
  admin_socket = bytes "/tmp/vortex_admin.sock";
  quic_addr = listen_addr;
  sweep_interval_secs = 5;
}

-- A result that is unwrapped.
abbrev pub unwrap {ℓ} : {A : Type 0} {B : Type ℓ} → Outcome A → (A → Running B) → Running B
unwrap (ok a) k = k a
unwrap err k = panicked
unwrap panic k = panicked

-- `cfg(target_os = "linux")`: none where there is no file, or where it cannot be loaded.
unfoldable pub xdp_limiter : {S : Type 0} → Option Text → (Text → Outcome S) → Outcome (Option S)
xdp_limiter none xdp_new = ok none
xdp_limiter (some bpf_code) xdp_new = elim (xdp_new bpf_code) [
  | ok limiter ↦ ok (some limiter)
  | err ↦ ok none
  | panic ↦ panic
]

unfoldable pub redis_url_of : Option Text → Text
redis_url_of none = bytes "redis://127.0.0.1/"
redis_url_of (some url) = url

-- The pointers of the two initial backends are 0 and 1.
abbrev pub initial_backends : List SharedBackend
initial_backends = 0 ∷ 1 ∷ []

unfoldable pub initial_heap {ℓ} : {F : Type ℓ} ⦃f : Float F⦄ (baseline balanced : F) → Heap F
unfolding Backend.new
initial_heap baseline balanced p =
    if p == 0
    then Backend.new baseline balanced 1 (loopback 9090)
    else Backend.new baseline balanced 2 (loopback 9091)

module _ {ℓ} {Cert Key Sender R : Type 0} (L : Libraries Sender LinuxXdpLimiter R) {F : Type ℓ}
    ⦃f : Float F⦄ (baseline balanced : F) (world : World Cert Key R) where
  unfoldable pub context : Option LinuxXdpLimiter → R → ServerContext L F
  unfolding initial_heap
  context limiter rate_store = record {
    routing_table = Routing.new L.cells initial_backends;
    heap = initial_heap baseline balanced;
    connection_pool = ConnectionPool.new L.queues L.pools;
    rate_store = rate_store;
    ban_manager = BanManager.new L.limiter L.bans limiter;
  }

  -- The accept loop, with TLS, where the address can be bound.
  unfoldable pub start_server : ServerContext L F → Running (Listener L F)
  start_server ctx = if world.binds listen_addr then running (bound L ctx) else returned

  unfoldable pub async_main : Running (Listener L F)
  unfolding start_server context xdp_limiter redis_url_of
  async_main = unwrap (init_telemetry world.install_batch world.rust_log) (λ subscriber.
      unwrap (init_metrics_exporter world.prometheus 9091) (λ exporter.
        unwrap (load_tls_config world.accepts world.cert_file world.key_file) (λ tls_config.
          unwrap (xdp_limiter world.bpf_file (Load.new world.aya (bytes "eth0"))) (λ limiter.
            unwrap (WasmEngine.new world.engine_new) (λ wasm_engine.
              unwrap (world.rate_store_new (redis_url_of world.redis_url))
                (λ rate_store. start_server (context limiter rate_store)))))))
