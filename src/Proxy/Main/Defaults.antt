-- ===== src/Proxy/Main/Defaults.antt =====
-- The backends that main.rs starts with.
use vortex_proxy.Prelude.{ℕ, ◌≡◌, refl, Bool, true, false, some, Option, arith, min_by}
use vortex_proxy.Float.{Float}
use vortex_proxy.Net.{SocketAddr}
use vortex_proxy.Core.Backend
use vortex_proxy.Core.Backend.{SharedBackend, is_healthy}
use vortex_proxy.Core.CircuitBreaker
use vortex_proxy.Core.CircuitBreaker.{state}
use vortex_proxy.Core.Ewma
use vortex_proxy.Core.Routing
use vortex_proxy.Core.Routing.{snapshot, score_gt}
use vortex_proxy.Core.Selector.{is_eligible, select_best_backend}
use vortex_proxy.Ebpf.Linux.{LinuxXdpLimiter}
use vortex_proxy.Proxy.HealthChecker.{check_round, probe, probe_all}
use vortex_proxy.Proxy.Metrics.{Prometheus, Exporter, init_metrics_exporter, set_buckets, install}
use vortex_proxy.Proxy.Server.{Libraries}
use vortex_proxy.Proxy.Server.Listener.{Listener}
use vortex_proxy.Outcome.{ok}
use vortex_proxy.Proxy.Main.{World, loopback, running, initial_heap, context, async_main}
use vortex_proxy.Proxy.Main.Startup.{async_main-running}

-- An exporter that runs listens on the port it was asked for.
port-init_metrics_exporter :
    (p : Prometheus) (port : ℕ) {e : Exporter}
    → init_metrics_exporter p port ≡ ok e
    → e.http_listener.port ≡ port
unfolding init_metrics_exporter set_buckets install
port-init_metrics_exporter p port h = ground (arith, h)

module _ {ℓ} {Cert Key Sender R : Type 0} (L : Libraries Sender LinuxXdpLimiter R) {F : Type ℓ}
    ⦃f : Float F⦄ (baseline balanced : F) (world : World Cert Key R) where
  context-probed :
      (limiter : Option LinuxXdpLimiter) (rate_store : R) (connects : SocketAddr → Bool) (now : ℕ)
      → connects (loopback 9090) ≡ false
      → connects (loopback 9091) ≡ true
      → select_best_backend L.cells
          (check_round L.cells
            (context L baseline balanced world limiter rate_store).routing_table
            (context L baseline balanced world limiter rate_store).heap
            connects)
          now
          (context L baseline balanced world limiter rate_store).routing_table
        ≡ some 1
  unfolding context initial_heap Routing.new Backend.new Backend.set_healthy CircuitBreaker.new
      Ewma.new snapshot is_eligible is_healthy state select_best_backend check_round probe probe_all
      min_by
  context-probed limiter rate_store connects now down up =
      rw L.cells.load-from_pointee (ground (arith, down, up))

  context-second :
      (limiter : Option LinuxXdpLimiter) (rate_store : R)
      → ((context L baseline balanced world limiter rate_store).heap 1).addr ≡ loopback 9091
  unfolding context initial_heap Backend.new
  context-second limiter rate_store = refl

  -- If the program starts, nothing else serves port 9090 and its own exporter answers on port 9091 of
  -- the loopback address, then after a round of the prober the backend that is selected for requests is
  -- the second of the initial table, and its address is the port of the metrics exporter: the proxy
  -- forwards its clients to its own metrics.
  pub async_main-metrics_backend :
      {s : Listener L F} (connects : SocketAddr → Bool) (now : ℕ)
      → async_main L baseline balanced world ≡ running s
      → connects (loopback 9090) ≡ false
      → connects (loopback 9091) ≡ true
      → (exporter : Exporter) × (init_metrics_exporter world.prometheus 9091 ≡ ok exporter)
        × (select_best_backend L.cells
              (check_round L.cells s.ctx.routing_table s.ctx.heap connects)
              now
              s.ctx.routing_table
            ≡ some 1)
        × ((s.ctx.heap 1).addr ≡ loopback exporter.http_listener.port)
  async_main-metrics_backend connects now runs down up =
      let (exporter, limiter, rate_store, m, e) =
        async_main-running L baseline balanced world runs in
      (
        exporter,
        m,
        rw e (context-probed limiter rate_store connects now down up),
        rw (e, port-init_metrics_exporter world.prometheus 9091 m)
            (context-second limiter rate_store),
      )
