-- ===== src/Proxy/ConnectionPool/Tests.antt =====
-- The theorems on pool.rs at a pool with three connections, of which the oldest is closed. A sender
-- is a number here, closed where it is 7.
use mathlib.Core.Logic.{ite}
use vortex_proxy.Prelude.{ℕ, ◌≡◌, refl, Bool, ◌==◌, List, [], ◌∷◌, some, head?, ℕ_discrete}
use vortex_proxy.Net.{SocketAddr, SocketAddr-discrete, v4}
use vortex_proxy.DashMap.{DashMap}
use vortex_proxy.DashMap.Assoc.{assoc}
use vortex_proxy.SegQueue.{SegQueue, listed}
use vortex_proxy.Proxy.ConnectionPool.{ConnectionPool, new, pop_open, try_pop, queue_at, push}
use vortex_proxy.Proxy.ConnectionPool.Pooling.{from_open, tail, idle, try_pop-oldest_open}

abbrev at_port : ℕ → SocketAddr
at_port port = record { ip = v4 127 0 0 1; port = port }

abbrev queues : SegQueue ℕ
queues = listed ℕ

abbrev map : DashMap SocketAddr (List ℕ) SocketAddr-discrete
map = assoc SocketAddr-discrete

abbrev is_seven : ℕ → Bool
is_seven s = s == 7

abbrev filled : ConnectionPool queues map
filled = record { idle_connections = map.insert map.empty (at_port 80) (7 ∷ 8 ∷ 9 ∷ []) }

program : Unit {0}
unfolding assoc SocketAddr-discrete ℕ_discrete new pop_open try_pop queue_at push idle
program = tt

skips_closed : (try_pop queues map is_seven filled (at_port 80)).1 ≡ some 8
unfolding program
skips_closed = refl

try_pop-oldest_open_example :
    ((try_pop queues map is_seven filled (at_port 80)).1
      ≡ head? (from_open is_seven (idle queues map filled (at_port 80))))
    × (idle queues map (try_pop queues map is_seven filled (at_port 80)).0 (at_port 80)
        ≡ ite
            (SocketAddr-discrete (at_port 80) (at_port 80))
            (tail (from_open is_seven (idle queues map filled (at_port 80))))
            (idle queues map filled (at_port 80)))
try_pop-oldest_open_example =
    try_pop-oldest_open queues map is_seven filled (at_port 80) (at_port 80)
