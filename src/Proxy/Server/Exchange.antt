-- ===== src/Proxy/Server/Exchange.antt =====
-- The second part of `forward_request` of vortex-proxy/src/server.rs, from the selection of a backend on,
-- as a step relation: any number of requests at once, each of which stops at every `await` and between
-- any two accesses of what the requests share. A sender is a number here, in the order in which the
-- handshakes succeed. `try_pop` is one step: the closed senders that it drops are its own.
mod Queues
mod Home
mod Ownership
pub mod Exclusive
pub mod Serial
mod Tests
use vortex_proxy.Prelude.{
  ℕ, ◌≡◌, ◌⊎◌, Bool, true, false, Option, none, some, List, [], ◌∷◌, ◌++◌, get_elem?, set, length,
}
use vortex_proxy.Float.{Float}
use vortex_proxy.Net.{SocketAddr}
use vortex_proxy.Core.Backend.{SharedBackend, Backend}
use vortex_proxy.Core.Routing.{update_backends}
use vortex_proxy.Core.Selector.{select_best_backend}
use vortex_proxy.Proxy.ConnectionPool.{try_pop, push}
use vortex_proxy.Proxy.HealthChecker.{check_round}
use vortex_proxy.Proxy.Server.{
  Libraries, Network, Request, ServerContext, refused, unshaken, connected, outgoing, at_backend,
  with_guard, without_guard, failing, succeeding, observing,
}

-- `upstream_addr`, `ewma_node`, and where the request is: the backend is selected; its guard is taken; a
-- popped sender is asked whether it is ready; a connection is made; the sender is asked; the request is
-- sent; the breaker knows of the success; the sender is back in the pool; only the guard is left;
-- nothing is.
pub data Exchange : Type 0 where
  selected guarded : SocketAddr → SharedBackend → Exchange
  checking : SocketAddr → SharedBackend → ℕ → Exchange
  dialing : SocketAddr → SharedBackend → Exchange
  preparing sending returning : SocketAddr → SharedBackend → ℕ → Exchange
  pooled leaving : SocketAddr → SharedBackend → Exchange
  over : Exchange

-- The address and the backend of a request that is at an `await`.
abbrev pub waits_at : Exchange → Option (SocketAddr × SharedBackend)
waits_at (checking addr b n) = some (addr, b)
waits_at (dialing addr b) = some (addr, b)
waits_at (preparing addr b n) = some (addr, b)
waits_at (sending addr b n) = some (addr, b)
waits_at _ = none

-- Where a request is after its pop.
abbrev pub after_pop : SocketAddr → SharedBackend → Option ℕ → Exchange
after_pop addr b none = dialing addr b
after_pop addr b (some n) = checking addr b n

module _ {S R : Type 0} (L : Libraries ℕ S R) where
  pub record Proxying {ℓ} (F : Type ℓ) : Type ℓ where
    pub ctx : ServerContext L F
    -- To whom each connection was made.
    pub opened : List SocketAddr
    pub exchanges : List Exchange

  module _ {ℓ} {F : Type ℓ} where
    abbrev pub start : ServerContext L F → Proxying F
    start ctx = record { ctx = ctx; opened = []; exchanges = [] }

    abbrev pub goes_on : Proxying F → ℕ → Exchange → Proxying F
    goes_on s i e = record s { exchanges = set s.exchanges i e }

  module _ {ℓ} {F : Type ℓ} ⦃f : Float F⦄ {Response Value : Type 0} (net : Network ℕ Response F)
      (req : Request Value) where
    abbrev pub touch : Proxying F → SharedBackend → (Backend F → Backend F) → Proxying F
    touch s b change = record s { ctx = at_backend L net req s.ctx b change }

    unfoldable pub pop_step : Proxying F → ℕ → SocketAddr → SharedBackend → Proxying F
    pop_step s i addr b =
        let (pool, popped) =
          try_pop L.queues L.pools net.closed_at_pop s.ctx.connection_pool addr in
        record s {
          ctx = record s.ctx { connection_pool = pool };
          exchanges = set s.exchanges i (after_pop addr b popped);
        }

    unfoldable pub push_step : Proxying F → ℕ → SocketAddr → SharedBackend → ℕ → Proxying F
    push_step s i addr b n = record s {
      ctx = record s.ctx {
        connection_pool = push L.queues L.pools net.closed_at_push s.ctx.connection_pool addr n;
      };
      exchanges = set s.exchanges i (pooled addr b);
    }

    unfoldable pub connect_step : Proxying F → ℕ → SocketAddr → SharedBackend → Proxying F
    connect_step s i addr b = record s {
      opened = s.opened ++ addr ∷ [];
      exchanges = set s.exchanges i (preparing addr b (length s.opened));
    }

  module _ {ℓ} {F : Type ℓ} ⦃f : Float F⦄ (Response Value : Type 0) where
    -- A step of exchange `i`; what the world answers it is in `net`.
    pub data Move (net : Network ℕ Response F) (req : Request Value) (s : Proxying F) (i : ℕ)
        : Exchange → Proxying F → Type ℓ where
      guard :
          (addr : SocketAddr) (b : SharedBackend)
          → Move net req s i
              (selected addr b)
              (goes_on (touch net req s b (with_guard L net req)) i (guarded addr b))
      pop :
          (addr : SocketAddr) (b : SharedBackend)
          → Move net req s i (guarded addr b) (pop_step net req s i addr b)
      warm :
          (addr : SocketAddr) (b : SharedBackend) (n : ℕ)
          → net.pooled_ready n ≡ true
          → Move net req s i (checking addr b n) (goes_on s i (preparing addr b n))
      stale :
          (addr : SocketAddr) (b : SharedBackend) (n : ℕ)
          → net.pooled_ready n ≡ false
          → Move net req s i (checking addr b n) (goes_on s i (dialing addr b))
      -- The connection or the handshake fails.
      no_connection :
          (addr : SocketAddr) (b : SharedBackend)
          → (net.connect addr ≡ refused) ⊎ (net.connect addr ≡ unshaken)
          → Move net req s i
              (dialing addr b)
              (goes_on (touch net req s b (failing L net req)) i (leaving addr b))
      connect :
          (addr : SocketAddr) (b : SharedBackend)
          → net.connect addr ≡ connected (length s.opened)
          → Move net req s i (dialing addr b) (connect_step net req s i addr b)
      prepared :
          (addr : SocketAddr) (b : SharedBackend) (n : ℕ)
          → L.parses_uri (outgoing L net req addr).uri ≡ true
          → net.ready n ≡ true
          → Move net req s i (preparing addr b n) (goes_on s i (sending addr b n))
      unready :
          (addr : SocketAddr) (b : SharedBackend) (n : ℕ)
          → L.parses_uri (outgoing L net req addr).uri ≡ true
          → net.ready n ≡ false
          → Move net req s i (preparing addr b n) (goes_on s i (leaving addr b))
      uri_panic :
          (addr : SocketAddr) (b : SharedBackend) (n : ℕ)
          → L.parses_uri (outgoing L net req addr).uri ≡ false
          → Move net req s i (preparing addr b n) (goes_on s i (leaving addr b))
      no_response :
          (addr : SocketAddr) (b : SharedBackend) (n : ℕ)
          → net.send_request n (outgoing L net req addr) ≡ none
          → Move net req s i
              (sending addr b n)
              (goes_on (touch net req s b (failing L net req)) i (leaving addr b))
      response :
          (addr : SocketAddr) (b : SharedBackend) (n : ℕ) {body : Response}
          → net.send_request n (outgoing L net req addr) ≡ some body
          → Move net req s i
              (sending addr b n)
              (goes_on (touch net req s b (succeeding L net req)) i (returning addr b n))
      give_back :
          (addr : SocketAddr) (b : SharedBackend) (n : ℕ)
          → Move net req s i (returning addr b n) (push_step net req s i addr b n)
      observe :
          (addr : SocketAddr) (b : SharedBackend)
          → Move net req s i
              (pooled addr b)
              (goes_on (touch net req s b (observing L net req)) i (leaving addr b))
      drop_guard :
          (addr : SocketAddr) (b : SharedBackend)
          → Move net req s i
              (leaving addr b)
              (goes_on (touch net req s b (without_guard L net req)) i over)
      -- The client goes away: the future is dropped where it waits, and its sender with it.
      cancel :
          (e : Exchange) (addr : SocketAddr) (b : SharedBackend)
          → waits_at e ≡ some (addr, b)
          → Move net req s i e (goes_on s i (leaving addr b))

    pub data Step (s : Proxying F) : Proxying F → Type ℓ where
      select :
          (now : ℕ) (b : SharedBackend)
          → select_best_backend L.cells s.ctx.heap now s.ctx.routing_table ≡ some b
          → Step s (record s { exchanges = s.exchanges ++ selected (s.ctx.heap b).addr b ∷ [] })
      move :
          {t : Proxying F} (i : ℕ) (net : Network ℕ Response F) (req : Request Value) (e : Exchange)
          → get_elem? s.exchanges i ≡ some e
          → Move net req s i e t
          → Step s t
      probe_round :
          (connects : SocketAddr → Bool)
          → Step s (record s {
            ctx = record s.ctx {
              heap = check_round L.cells s.ctx.routing_table s.ctx.heap connects;
            };
          })
      replace_table :
          (backends : List SharedBackend)
          → Step s (record s {
            ctx = record s.ctx {
              routing_table = update_backends L.cells s.ctx.routing_table backends;
            };
          })

    pub data Reach (s : Proxying F) : Proxying F → Type ℓ where
      here : Reach s s
      later : {t u : Proxying F} → Reach s t → Step t u → Reach s u
