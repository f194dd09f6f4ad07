-- ===== src/Proxy/ConnectionPool.antt =====
-- vortex-proxy/src/connection_pool/pool.rs. A `Sender` is a `SendRequest`, of which the pool only asks
-- `is_closed`: its answers during one call are the argument `is_closed`. A queue never leaves the map
-- or moves in it, so its `Arc` is modelled by the queue that stands at its address.
pub mod Pooling
mod Tests
use vortex_proxy.Prelude.{
  ℕ, zero, suc, ◌+◌, Bool, true, false, Option, none, some, if◌then◌else◌, length,
}
use vortex_proxy.Net.{SocketAddr, SocketAddr-discrete}
use vortex_proxy.DashMap.{DashMap}
use vortex_proxy.SegQueue.{SegQueue}

module _ {Sender : Type 0} (Q : SegQueue Sender)
    (D : DashMap SocketAddr Q.Queue SocketAddr-discrete) where
  pub record ConnectionPool : Type 0 where
    pub idle_connections : D.Map

  unfoldable pub new : ConnectionPool
  new = record { idle_connections = D.empty }

  -- The `while let` of `try_pop`; the fuel bounds its rounds.
  unfoldable pub pop_open : (Sender → Bool) → ℕ → Q.Queue → Option Sender × Q.Queue
  pop_open is_closed zero queue = (none, queue)
  pop_open is_closed (suc fuel) queue = elim (Q.pop queue) [
    | none ↦ (none, queue)
    | some (sender, rest) ↦ elim (is_closed sender) [
      | false ↦ (some sender, rest)
      | true ↦ pop_open is_closed fuel rest
    ]
  ]

  -- One round for each connection in the queue, and one to find it empty.
  unfoldable pub try_pop :
      (Sender → Bool) → ConnectionPool → SocketAddr → ConnectionPool × Option Sender
  unfolding pop_open
  try_pop is_closed pool addr = elim (D.get pool.idle_connections addr) [
    | none ↦ (pool, none)
    | some queue ↦
        let (found, rest) = pop_open is_closed (length (Q.contents queue) + 1) queue in
        (record { idle_connections = D.insert pool.idle_connections addr rest }, found)
  ]

  -- `entry(addr).or_insert_with(..)`
  unfoldable pub queue_at : ConnectionPool → SocketAddr → Q.Queue
  queue_at pool addr = elim (D.get pool.idle_connections addr) [ none ↦ Q.new | some queue ↦ queue ]

  unfoldable pub push : (Sender → Bool) → ConnectionPool → SocketAddr → Sender → ConnectionPool
  unfolding queue_at
  push is_closed pool addr sender = if is_closed sender then pool else record {
    idle_connections = D.insert pool.idle_connections addr (Q.push (queue_at pool addr) sender);
  }
