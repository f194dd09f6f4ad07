-- ===== src/Proxy/Server/Listener/Counts.antt =====
-- The counter of open connections, and the requests in flight, over all interleavings.
use vortex_proxy.Prelude.{
  ℕ, ◌%◌, ◌^◌, ◌≡◌, refl, Bool, arith, u64_mod, total, total-append, total-set, List, [], ◌∷◌,
}
use vortex_proxy.Float.{Float}
use vortex_proxy.Core.ArcSwap.{ArcSwap}
use vortex_proxy.Core.Backend.{SharedBackend}
use vortex_proxy.Admin.AdminServer.{AdminServer, get_stats}
use vortex_proxy.Proxy.Server.{Libraries, ServerContext}
use vortex_proxy.Proxy.Server.Listener.{
  Task, spawned, shaking, serving, forwarding, ended, Listener, bound, Step, accept, accept_error,
  shutdown, start, handshake, handshake_failed, answer, forward, reply, crash, abort, close,
  probe_round, bans_change, allocate, replace_table, Reach, here, later,
}

-- Whether a task has its guard.
abbrev pub guards : Task → ℕ
guards (spawned _) = 0
guards (shaking _) = 1
guards (serving _) = 1
guards (forwarding _ _ _) = 1
guards ended = 0

-- The connections that are being shaken or served.
abbrev pub open_connections : List Task → ℕ
open_connections tasks = total guards tasks

abbrev pub Counted {ℓ} :
    {Sender S R : Type 0} (L : Libraries Sender S R) {F : Type ℓ} → Listener L F → Type 0
Counted L s = s.active_connections ≡ open_connections s.tasks % u64_mod

module _ {ℓ} {Sender S R : Type 0} (L : Libraries Sender S R) {F : Type ℓ} ⦃f : Float F⦄
    {Response Value : Type 0} (tls : Bool) where
  pub Step-Counted :
      (s t : Listener L F) → Step L Response Value tls s t → Counted L s → Counted L t
  Step-Counted s t (accept client on e) v =
      ground (arith, v, total-append guards s.tasks (spawned client ∷ []))
  Step-Counted s t (accept_error on e) v = ground (arith, v)
  Step-Counted s t (shutdown on e) v = ground (arith, v)
  Step-Counted s t (start i client at e) v = ground (
    arith,
    v,
    total-set guards s.tasks i (shaking client) at,
    total-set guards s.tasks i (serving client) at,
  )
  Step-Counted s t (handshake i client at e) v =
      ground (arith, v, total-set guards s.tasks i (serving client) at)
  Step-Counted s t (handshake_failed i client at e) v =
      ground (arith, v, total-set guards s.tasks i ended at)
  Step-Counted s t (answer i client net req sent at out e) v = ground (arith, v)
  Step-Counted s t (forward i client net req b at out e) v =
      ground (arith, v, total-set guards s.tasks i (forwarding client b req.path) at)
  Step-Counted s t (crash i client net req b at out e) v =
      ground (arith, v, total-set guards s.tasks i ended at)
  Step-Counted s t (reply i client net req b at out e) v =
      ground (arith, v, total-set guards s.tasks i (serving client) at)
  Step-Counted s t (abort i client net req b at e) v =
      ground (arith, v, total-set guards s.tasks i ended at)
  Step-Counted s t (close i client at e) v = ground (arith, v, total-set guards s.tasks i ended at)
  Step-Counted s t (probe_round connects e) v = ground (arith, v)
  Step-Counted s t (bans_change manager e) v = ground (arith, v)
  Step-Counted s t (allocate baseline balanced b id addr models unused e) v = ground (arith, v)
  Step-Counted s t (replace_table backends e) v = ground (arith, v)

  pub Reach-Counted_on :
      (s : Listener L F) {t : Listener L F}
      → Reach L Response Value tls s t
      → Counted L s
      → Counted L t
  Reach-Counted_on s here v = v
  Reach-Counted_on s (later {t = t} {u = u} r st) v = Step-Counted t u st (Reach-Counted_on s r v)

  pub Reach-Counted :
      (ctx : ServerContext L F) {s : Listener L F}
      → Reach L Response Value tls (bound L ctx) s
      → Counted L s
  Reach-Counted ctx r = Reach-Counted_on (bound L ctx) r refl

  -- In every state that the server reaches, whichever connections have come, failed their handshake or
  -- been closed, and whatever requests they made, the admin server's `get_stats` on the counter that the
  -- tasks share answers with the number of connections that are being shaken or served, modulo 2 ^ 32.
  pub get_stats-open_connections {κ} :
      {G : Type κ} (A : ArcSwap (List SharedBackend)) (admin : AdminServer A G)
      (ctx : ServerContext L F) {s : Listener L F}
      → Reach L Response Value tls (bound L ctx) s
      → admin.active_connections ≡ s.active_connections
      → get_stats A admin ≡ open_connections s.tasks % 2 ^ 32
  unfolding get_stats
  get_stats-open_connections A admin ctx r shared = omega (arith, Reach-Counted ctx r, shared)
