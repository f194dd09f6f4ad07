-- ===== src/Proxy/Main/Invariants.antt =====
-- What holds from the start of main.rs for as long as the accept loop and its tasks go on.
use vortex_proxy.Prelude.{◌%◌, ◌≡◌, true, subst, u64_mod, total}
use vortex_proxy.Float.{Float}
use vortex_proxy.Ebpf.Linux.{LinuxXdpLimiter}
use vortex_proxy.Core.Backend.{SharedBackend}
use vortex_proxy.Proxy.Server.{Libraries}
use vortex_proxy.Proxy.Server.Listener.{Listener, Reach}
use vortex_proxy.Proxy.Server.Listener.Counts.{open_connections, Reach-Counted}
use vortex_proxy.Proxy.Server.Listener.Flights.{in_flight, Reach-Flying}
use vortex_proxy.Proxy.Main.{World, running, context, async_main}
use vortex_proxy.Proxy.Main.Startup.{async_main-running, context-active_requests}

module _ {ℓ} {Cert Key Sender R : Type 0} (L : Libraries Sender LinuxXdpLimiter R) {F : Type ℓ}
    ⦃f : Float F⦄ (baseline balanced : F) (world : World Cert Key R) {Response Value : Type 0} where
  -- If the program starts, then in every state that it reaches, in whatever order connections come and
  -- end, requests are refused, forwarded, answered, abandoned and panic, backends are made and probed,
  -- bans come and go and the routing table is replaced: the counter of active connections is the number
  -- of connections that are shaken or served, and the counter of every backend is the number of requests
  -- that wait for it, both modulo 2 ^ 64.
  pub async_main-invariants :
      {s t : Listener L F}
      → async_main L baseline balanced world ≡ running s
      → Reach L Response Value true s t
      → (t.active_connections ≡ open_connections t.tasks % u64_mod)
        × ((j : SharedBackend)
            → (t.ctx.heap j).ewma.active_requests ≡ total (in_flight j) t.tasks % u64_mod)
  async_main-invariants {t = t} runs r =
      let (exporter, limiter, rate_store, _, e) =
        async_main-running L baseline balanced world runs in
      let ctx = context L baseline balanced world limiter rate_store in
      let r' = subst (λ u. Reach L Response Value true u t) e r in
      (
        Reach-Counted L true ctx r',
        Reach-Flying L true ctx
            (context-active_requests L baseline balanced world limiter rate_store) r',
      )
