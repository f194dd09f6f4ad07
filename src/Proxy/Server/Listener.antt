-- ===== src/Proxy/Server/Listener.antt =====
-- `start_server` of vortex-proxy/src/server.rs: the accept loop and the tasks that it spawns, as a step
-- relation. A connection serves any number of requests, one after the other, each in two steps: up to
-- the guard of its backend, and from there to the reply. Between them the other connections take
-- theirs, and so do the other parts of the program that act on what they share: the prober, the
-- sweeper of the bans, and whoever makes new backends and replaces the routing table.
pub mod Counts
pub mod Flights
pub mod Shutdown
pub mod Drain
mod Tests
use vortex_proxy.Prelude.{
  ℕ, zero, suc, ◌≡◌, Bool, true, false, Option, some, List, [], ◌∷◌, ◌++◌, incr64, decr64,
  if◌then◌else◌, get_elem?, set, Text, All, ◌==◌, update,
}
use vortex_proxy.Float.{Float}
use vortex_proxy.Net.{SocketAddr}
use vortex_proxy.Core.Backend.{SharedBackend, with_models}
use vortex_proxy.Core.Routing.{update_backends}
use vortex_proxy.Proxy.BanManager.{BanManager}
use vortex_proxy.Proxy.HealthChecker.{check_round}
use vortex_proxy.Proxy.Server.{Libraries, Network, Request, Reply, uri_panicked, ServerContext}
use vortex_proxy.Proxy.Server.Phases.{Admission, answered, admitted, admit, complete, cancel}

-- A spawned task: before its first instruction, in the TLS handshake, serving the connection with no
-- request, waiting for a backend with a request of this path, over.
pub data Task : Type 0 where
  spawned shaking serving : SocketAddr → Task
  forwarding : SocketAddr → SharedBackend → Option Text → Task
  ended : Task

-- The task does not hold this backend.
abbrev pub IsElsewhere : SharedBackend → Task → Type 0
IsElsewhere b (forwarding _ c _) = c == b ≡ false
IsElsewhere b _ = Unit

abbrev pub panics : {Response : Type 0} → Reply Response → Bool
panics uri_panicked = true
panics _ = false

module _ {Sender S R : Type 0} (L : Libraries Sender S R) where
  pub record Listener {ℓ} (F : Type ℓ) : Type ℓ where
    pub ctx : ServerContext L F
    pub active_connections : ℕ
    pub tasks : List Task
    -- Whether the loop is still running.
    pub accepting : Bool

  -- `bind` has succeeded.
  abbrev pub bound {ℓ} : {F : Type ℓ} → ServerContext L F → Listener F
  bound ctx = record { ctx = ctx; active_connections = 0; tasks = []; accepting = true }

  module _ {ℓ} {F : Type ℓ} where
    abbrev pub spawn : Listener F → SocketAddr → Listener F
    spawn s client = record s { tasks = s.tasks ++ spawned client ∷ [] }

    -- The guard and its `fetch_add`; then the handshake, where there is TLS.
    abbrev pub begin : Bool → Listener F → ℕ → SocketAddr → Listener F
    begin tls s i client = record s {
      active_connections = incr64 s.active_connections;
      tasks = set s.tasks i (if tls then shaking client else serving client);
    }

    -- The guard is dropped wherever a task that has it ends.
    abbrev pub finish : Listener F → ℕ → Listener F
    finish s i = record s {
      active_connections = decr64 s.active_connections;
      tasks = set s.tasks i ended;
    }

    abbrev pub with_ctx : Listener F → ServerContext L F → Listener F
    with_ctx s ctx = record s { ctx = ctx }

  module _ {ℓ} {F : Type ℓ} ⦃f : Float F⦄ (Response Value : Type 0) (tls : Bool) where
    pub data Step (s t : Listener F) : Type ℓ where
      accept : (client : SocketAddr) → s.accepting ≡ true → t ≡ spawn s client → Step s t
      -- An error of `accept` is logged.
      accept_error : s.accepting ≡ true → t ≡ s → Step s t
      -- `recv` returns, whatever it returns.
      shutdown : s.accepting ≡ true → t ≡ record s { accepting = false } → Step s t
      start :
          (i : ℕ) (client : SocketAddr)
          → get_elem? s.tasks i ≡ some (spawned client)
          → t ≡ begin tls s i client
          → Step s t
      handshake :
          (i : ℕ) (client : SocketAddr)
          → get_elem? s.tasks i ≡ some (shaking client)
          → t ≡ record s { tasks = set s.tasks i (serving client) }
          → Step s t
      handshake_failed :
          (i : ℕ) (client : SocketAddr)
          → get_elem? s.tasks i ≡ some (shaking client)
          → t ≡ finish s i
          → Step s t
      -- A request that is refused, or for which there is no backend.
      answer :
          (i : ℕ) (client : SocketAddr) (net : Network Sender Response F) (req : Request Value)
          (sent : Reply Response)
          → get_elem? s.tasks i ≡ some (serving client)
          → (admit L net req s.ctx client).1 ≡ answered sent
          → t ≡ with_ctx s (admit L net req s.ctx client).0
          → Step s t
      forward :
          (i : ℕ) (client : SocketAddr) (net : Network Sender Response F) (req : Request Value)
          (b : SharedBackend)
          → get_elem? s.tasks i ≡ some (serving client)
          → (admit L net req s.ctx client).1 ≡ admitted b
          → t ≡ record (with_ctx s (admit L net req s.ctx client).0) {
            tasks = set s.tasks i (forwarding client b req.path);
          }
          → Step s t
      reply :
          (i : ℕ) (client : SocketAddr) (net : Network Sender Response F) (req : Request Value)
          (b : SharedBackend)
          → get_elem? s.tasks i ≡ some (forwarding client b req.path)
          → panics (complete L net req s.ctx b).1 ≡ false
          → t ≡ record (with_ctx s (complete L net req s.ctx b).0) {
            tasks = set s.tasks i (serving client);
          }
          → Step s t
      -- The panic ends the task, and both its guards are dropped.
      crash :
          (i : ℕ) (client : SocketAddr) (net : Network Sender Response F) (req : Request Value)
          (b : SharedBackend)
          → get_elem? s.tasks i ≡ some (forwarding client b req.path)
          → panics (complete L net req s.ctx b).1 ≡ true
          → t ≡ with_ctx (finish s i) (complete L net req s.ctx b).0
          → Step s t
      -- The client goes away before the reply.
      abort :
          (i : ℕ) (client : SocketAddr) (net : Network Sender Response F) (req : Request Value)
          (b : SharedBackend)
          → get_elem? s.tasks i ≡ some (forwarding client b req.path)
          → t ≡ with_ctx (finish s i) (cancel L net req s.ctx b)
          → Step s t
      -- The client closes the connection, or serving it fails.
      close :
          (i : ℕ) (client : SocketAddr)
          → get_elem? s.tasks i ≡ some (serving client)
          → t ≡ finish s i
          → Step s t
      -- The other parts of the program.
      probe_round :
          (connects : SocketAddr → Bool)
          → t
            ≡ with_ctx s (record s.ctx {
              heap = check_round L.cells s.ctx.routing_table s.ctx.heap connects;
            })
          → Step s t
      -- A ban and a sweep have several steps each, of which others may come in between. The tasks never
      -- read the ban manager, so that here it may become anything at any time.
      bans_change :
          (manager : BanManager L.limiter L.bans)
          → t ≡ with_ctx s (record s.ctx { ban_manager = manager })
          → Step s t
      -- `Arc::new` of a backend for a new table, at a pointer that no task has.
      allocate :
          (baseline balanced : F) (b : SharedBackend) (id : ℕ) (addr : SocketAddr)
          (models : List Text)
          → All (IsElsewhere b) s.tasks
          → t
            ≡ with_ctx s (record s.ctx {
              heap = update s.ctx.heap b (with_models baseline balanced id addr models);
            })
          → Step s t
      replace_table :
          (backends : List SharedBackend)
          → t
            ≡ with_ctx s (record s.ctx {
              routing_table = update_backends L.cells s.ctx.routing_table backends;
            })
          → Step s t

    pub data Reach (s : Listener F) : Listener F → Type ℓ where
      here : Reach s s
      later : {t u : Listener F} → Reach s t → Step t u → Reach s u
