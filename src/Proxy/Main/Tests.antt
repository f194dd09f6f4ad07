-- ===== src/Proxy/Main/Tests.antt =====
-- The theorems on main.rs at a world in which the program starts.
use vortex_proxy.Prelude.{
  ℕ, ◌%◌, ◌≡◌, ◌==◌, refl, total, true, false, Bool, [], ◌∷◌, none, some, Text, bytes, u64_mod,
}
use vortex_proxy.Float.Fraction.{Fraction, whole, half, fraction_float}
use vortex_proxy.Net.{SocketAddr}
use vortex_proxy.Outcome.{ok}
use vortex_proxy.Ebpf.Linux.{LinuxXdpLimiter, linux}
use vortex_proxy.Ebpf.Load
use vortex_proxy.Ebpf.Load.{Aya}
use vortex_proxy.Proxy.Server.{Libraries}
use vortex_proxy.Core.Backend.{SharedBackend}
use vortex_proxy.Core.Fleet.{cells}
use vortex_proxy.Core.Routing
use vortex_proxy.Core.Selector.{select_best_backend}
use vortex_proxy.Filters.WasmEngine
use vortex_proxy.Proxy.HealthChecker.{check_round}
use vortex_proxy.Proxy.Metrics.{Exporter, init_metrics_exporter}
use vortex_proxy.Proxy.Server.Sample.{libraries, network, request, client, program}
use vortex_proxy.Proxy.Server.Listener
use vortex_proxy.Proxy.Server.Listener.{
  Listener, bound, with_ctx, Reach, here, later, accept, start, handshake,
}
use vortex_proxy.Proxy.Server.Listener.Counts.{open_connections}
use vortex_proxy.Proxy.Server.Listener.Flights.{in_flight}
use vortex_proxy.Proxy.Server.Phases.{admit, select}
use vortex_proxy.Proxy.Telemetry.Setup.{init_telemetry}
use vortex_proxy.Proxy.Tls.Config.{load_tls_config}
use vortex_proxy.Proxy.Main.{World, loopback, running, returned, panicked, context, async_main}
use vortex_proxy.Proxy.Main.Cores.{worker_threads, start_all, somes}
use vortex_proxy.Proxy.Main.Invariants.{async_main-invariants}
use vortex_proxy.Proxy.Main.Defaults.{async_main-metrics_backend}

-- The libraries of the sample, with the limiter of linux.rs.
abbrev on_linux : Libraries ℕ LinuxXdpLimiter ℕ
on_linux = record {
  cells = libraries.cells;
  queues = libraries.queues;
  pools = libraries.pools;
  bans = libraries.bans;
  limiter = linux;
  store = libraries.store;
  display = libraries.display;
  display_addr = libraries.display_addr;
  parses_uri = libraries.parses_uri;
}

-- An object file that can be loaded, and its limiter.
abbrev aya : Aya
aya = record {
  Bpf = Unit;
  Program = Unit;
  Xdp = Unit;
  load = λ bpf_code. some tt;
  program_mut = λ bpf name. some tt;
  try_into = λ found. some tt;
  load_program = λ loaded. some tt;
  attach = λ loaded interface. some tt;
  map_ok = λ bpf. true;
  insert_ok = λ bpf. true;
}

abbrev attached : LinuxXdpLimiter
attached = record { blocked_ips = []; map_ok = true; insert_ok = true }

abbrev world : World ℕ ℕ ℕ
world = record {
  install_batch = λ config. some tt;
  rust_log = none;
  prometheus = record { takes = λ metric bounds. true; installs = λ exporter. true };
  cert_file = some (1 ∷ []);
  key_file = some (2 ∷ []);
  accepts = λ certs key. true;
  bpf_file = some (bytes "ELF");
  aya = aya;
  engine_new = λ instances. some tt;
  redis_url = none;
  rate_store_new = λ url. ok 5;
  binds = λ addr. true;
}

abbrev started : Listener on_linux Fraction
started = bound on_linux (context on_linux (whole 50) half world (some attached) 5)

async_main-started : async_main on_linux (whole 50) half world ≡ running started
unfolding async_main program init_telemetry init_metrics_exporter load_tls_config WasmEngine.new
    Load.new
async_main-started = refl

-- Without a key in its file, and with the port taken.
fails_to_start :
    (async_main on_linux (whole 50) half (record world { key_file = some [] }) ≡ panicked)
    × (async_main on_linux (whole 50) half (record world { binds = λ addr. false }) ≡ returned)
unfolding async_main program init_telemetry init_metrics_exporter load_tls_config WasmEngine.new
    Load.new
fails_to_start = (refl, refl)

abbrev serving_one : Listener on_linux Fraction
serving_one = record started { active_connections = 1; tasks = Listener.serving client ∷ [] }

serving_one-Reach : Reach on_linux ℕ Text true started serving_one
serving_one-Reach =
    later (later (later here (accept client refl refl)) (start 0 client refl refl))
      (handshake 0 client refl refl)

-- The connection's request waits for the first backend.
abbrev waiting : Listener on_linux Fraction
waiting =
    record (with_ctx on_linux serving_one
      (admit on_linux (network true) request serving_one.ctx client).0) {
        tasks = Listener.forwarding client 0 none ∷ [];
      }

waiting-Reach : Reach on_linux ℕ Text true started waiting
unfolding program admit select context Routing.new
waiting-Reach =
    later serving_one-Reach (Listener.forward 0 client (network true) request 0 refl refl refl)

async_main-invariants_example :
    (waiting.active_connections ≡ open_connections waiting.tasks % u64_mod)
    × ((j : SharedBackend)
        → (waiting.ctx.heap j).ewma.active_requests ≡ total (in_flight j) waiting.tasks % u64_mod)
unfolding program
async_main-invariants_example =
    async_main-invariants on_linux (whole 50) half world async_main-started waiting-Reach

abbrev only_metrics : SocketAddr → Bool
only_metrics addr = addr.port == 9091

async_main-metrics_backend_example :
    (exporter : Exporter) × (init_metrics_exporter world.prometheus 9091 ≡ ok exporter)
    × (select_best_backend cells
          (check_round cells started.ctx.routing_table started.ctx.heap only_metrics)
          100
          started.ctx.routing_table
        ≡ some 1)
    × ((started.ctx.heap 1).addr ≡ loopback exporter.http_listener.port)
async_main-metrics_backend_example =
    async_main-metrics_backend on_linux (whole 50) half world only_metrics 100 async_main-started
      refl refl

-- Three cores, three threads.
start_all-three :
    start_all (4 ∷ 5 ∷ 7 ∷ []) 0 (worker_threads (4 ∷ 5 ∷ 7 ∷ [])) ≡ somes (4 ∷ 5 ∷ 7 ∷ [])
unfolding start_all worker_threads
start_all-three = refl
