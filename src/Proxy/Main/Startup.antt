-- ===== src/Proxy/Main/Startup.antt =====
-- What main.rs starts, and what then holds for as long as it runs.
use vortex_proxy.Prelude.{◌≡◌, refl, Option, arith, bytes}
use vortex_proxy.Float.{Float}
use vortex_proxy.Core.Backend
use vortex_proxy.Core.Backend.{SharedBackend}
use vortex_proxy.Core.Ewma
use vortex_proxy.Filters.WasmEngine
use vortex_proxy.Ebpf.Linux.{LinuxXdpLimiter}
use vortex_proxy.Ebpf.Load
use vortex_proxy.Proxy.Metrics.{Exporter, init_metrics_exporter}
use vortex_proxy.Proxy.Server.{Libraries, ServerContext}
use vortex_proxy.Proxy.Server.Listener.{Listener, bound}
use vortex_proxy.Outcome.{Outcome, ok, err, panic}
use vortex_proxy.Proxy.Telemetry.Setup.{init_telemetry}
use vortex_proxy.Proxy.Tls.Config.{load_tls_config}
use vortex_proxy.Proxy.Main.{
  World, Running, running, unwrap, xdp_limiter, redis_url_of, initial_heap, context, start_server,
  async_main,
}

-- Inversion of an unwrapped result in a program that runs.
unwrap-running {ℓ} :
    {A : Type 0} {B : Type ℓ} (m : Outcome A) (k : A → Running B) {b : B}
    → unwrap m k ≡ running b
    → (a : A) × (m ≡ ok a) × (k a ≡ running b)
unwrap-running (ok a) k h = (a, refl, h)
unwrap-running err k h = cc
unwrap-running panic k h = cc

module _ {ℓ} {Cert Key Sender R : Type 0} (L : Libraries Sender LinuxXdpLimiter R) {F : Type ℓ}
    ⦃f : Float F⦄ (baseline balanced : F) (world : World Cert Key R) where
  start_server-running :
      (ctx : ServerContext L F) {s : Listener L F}
      → start_server L baseline balanced world ctx ≡ running s
      → s ≡ bound L ctx
  unfolding start_server
  start_server-running ctx h = ground (arith, h)

  pub async_main-running :
      {s : Listener L F}
      → async_main L baseline balanced world ≡ running s
      → (exporter : Exporter) × (limiter : Option LinuxXdpLimiter) × (rate_store : R)
        × (init_metrics_exporter world.prometheus 9091 ≡ ok exporter)
        × (s ≡ bound L (context L baseline balanced world limiter rate_store))
  unfolding async_main
  async_main-running h =
      let (subscriber, u, h0) =
        unwrap-running (init_telemetry world.install_batch world.rust_log) _ h in
      let (exporter, m, h1) = unwrap-running (init_metrics_exporter world.prometheus 9091) _ h0 in
      let (tls_config, t, h2) =
        unwrap-running (load_tls_config world.accepts world.cert_file world.key_file) _ h1 in
      let (limiter, x, h3) =
        unwrap-running (xdp_limiter world.bpf_file (Load.new world.aya (bytes "eth0"))) _ h2 in
      let (wasm_engine, w, h4) = unwrap-running (WasmEngine.new world.engine_new) _ h3 in
      let (rate_store, r, h5) =
        unwrap-running (world.rate_store_new (redis_url_of world.redis_url)) _ h4 in
      (exporter, limiter, rate_store, m, start_server-running _ h5)

  pub context-active_requests :
      (limiter : Option LinuxXdpLimiter) (rate_store : R) (j : SharedBackend)
      → ((context L baseline balanced world limiter rate_store).heap j).ewma.active_requests ≡ 0
  unfolding context initial_heap Backend.new Ewma.new
  context-active_requests limiter rate_store j = ground arith
