-- ===== src/Proxy/Server/Phases/Effects.antt =====
-- What the two parts of `forward_request` do to the in-flight counters.
use vortex_proxy.Prelude.{
  ℕ, ◌≡◌, refl, ◌∙◌, ap, inl, inr, Option-cases, arith, ◌==◌, if◌then◌else◌, incr64, decr64,
}
use vortex_proxy.Float.{Float}
use vortex_proxy.Net.{SocketAddr}
use vortex_proxy.Core.Backend.{Backend, SharedBackend}
use vortex_proxy.Core.Ewma.{observe_latency, increment_active, drop_guard}
use vortex_proxy.Core.Selector.{select_best_backend}
use vortex_proxy.Proxy.Server.{
  Libraries, Network, Request, Reply, too_many_requests, no_healthy_upstream,
  upstream_connection_failed, upstream_handshake_failed, upstream_request_failed, unprepared,
  uri_panicked, forwarded, ServerContext, limited, serve, check_limit, refuse,
}
use vortex_proxy.Proxy.Server.Accounts.{settled, serve-heap}
use vortex_proxy.Proxy.Server.Phases.{
  Admission, answered, admitted, select, admit, complete, cancel,
}

-- A counter of requests in flight at backend `j`, after a request has been admitted or answered.
abbrev pub counted_at : {Response : Type 0} → Admission Response → SharedBackend → ℕ → ℕ
counted_at (answered _) j n = n
counted_at (admitted b) j n = if b == j then incr64 n else n

module _ {ℓ} {Sender S R : Type 0} (L : Libraries Sender S R) {F : Type ℓ} ⦃f : Float F⦄
    {Response Value : Type 0} (net : Network Sender Response F) (req : Request Value) where
  settled-active_requests :
      (reply : Reply Response) (x : Backend F)
      → (settled net reply x).ewma.active_requests ≡ x.ewma.active_requests
  unfolding observe_latency
  settled-active_requests (too_many_requests _) x = refl
  settled-active_requests no_healthy_upstream x = refl
  settled-active_requests unprepared x = refl
  settled-active_requests uri_panicked x = refl
  settled-active_requests upstream_connection_failed x = refl
  settled-active_requests upstream_handshake_failed x = refl
  settled-active_requests upstream_request_failed x = refl
  settled-active_requests (forwarded _) x = refl

  serve-active_requests :
      (ctx : ServerContext L F) (b j : SharedBackend)
      → ((serve L net req ctx b).0.heap j).ewma.active_requests ≡ (ctx.heap j).ewma.active_requests
  serve-active_requests ctx b j =
      let reply = (serve L net req ctx b).1 in
      ap (λ (x : Backend F). x.ewma.active_requests) (serve-heap L net req ctx b j)
      ∙ ground (arith, settled-active_requests reply (ctx.heap j))

  pub complete-active_requests :
      (ctx : ServerContext L F) (b j : SharedBackend)
      → ((complete L net req ctx b).0.heap j).ewma.active_requests ≡ (
          if b == j
          then decr64 (ctx.heap j).ewma.active_requests
          else (ctx.heap j).ewma.active_requests)
  unfolding complete drop_guard
  complete-active_requests ctx b j =
      ground (arith, serve-active_requests ctx b j, serve-active_requests ctx b b)

  pub cancel-active_requests :
      (ctx : ServerContext L F) (b j : SharedBackend)
      → ((cancel L net req ctx b).heap j).ewma.active_requests ≡ (
          if b == j
          then decr64 (ctx.heap j).ewma.active_requests
          else (ctx.heap j).ewma.active_requests)
  unfolding cancel drop_guard
  cancel-active_requests ctx b j = ground arith

  select-active_requests :
      (ctx : ServerContext L F) (j : SharedBackend)
      → ((select L net req ctx).0.heap j).ewma.active_requests
        ≡ counted_at (select L net req ctx).1 j (ctx.heap j).ewma.active_requests
  unfolding select increment_active
  select-active_requests ctx j =
      elim (Option-cases (select_best_backend L.cells ctx.heap net.select_secs ctx.routing_table)) [
        | inl none_left ↦ ground (arith, none_left)
        | inr (b, found) ↦ ground (arith, found)
      ]

  pub admit-active_requests :
      (ctx : ServerContext L F) (client : SocketAddr) (j : SharedBackend)
      → ((admit L net req ctx client).0.heap j).ewma.active_requests
        ≡ counted_at (admit L net req ctx client).1 j (ctx.heap j).ewma.active_requests
  unfolding admit refuse
  admit-active_requests ctx client j =
      let (store, result) = check_limit L net req ctx client in
      elim (Option-cases (limited result)) [
        | inr (reset_after, e) ↦ ground (arith, e)
        | inl e ↦ ground (arith, e, select-active_requests (record ctx { rate_store = store }) j)
      ]
