-- ===== src/Proxy/Server/Exchange/Tests.antt =====
-- The theorems on concurrent requests at a run with two of them.
use vortex_proxy.Prelude.{ℕ, ◌≡◌, refl, true, [], ◌∷◌, Text}
use vortex_proxy.Float.Fraction.{Fraction, fraction_float}
use vortex_proxy.Net.{SocketAddr}
use vortex_proxy.Proxy.Server.{Network, connected, with_guard, succeeding}
use vortex_proxy.Proxy.Server.Sample.{program, libraries, network, request, server, shaky}
use vortex_proxy.Proxy.Server.Exchange
use vortex_proxy.Proxy.Server.Exchange.{
  Proxying, Move, Step, Reach, here, later, start, goes_on, touch, pop_step, push_step,
  connect_step, select, move, guard, pop, connect, prepared, response, give_back,
}
use vortex_proxy.Proxy.Server.Exchange.Exclusive.{Exclusive, Reach-Exclusive}

abbrev Run : Proxying libraries Fraction → Proxying libraries Fraction → Type 0
Run = Reach libraries ℕ Text

-- The first handshake that succeeds makes sender 0.
abbrev net : Network ℕ ℕ Fraction
net = record (network true) { connect = λ to. connected 0 }

abbrev initial : Proxying libraries Fraction
initial = start libraries (server 5)

abbrev addr : SocketAddr
addr = (shaky 2).addr

abbrev chosen : Proxying libraries Fraction
chosen = record initial { exchanges = Exchange.selected addr 2 ∷ Exchange.selected addr 2 ∷ [] }

abbrev dialed : Proxying libraries Fraction
dialed =
    pop_step libraries net request
      (goes_on libraries (touch libraries net request chosen 2 (with_guard libraries net request)) 0
        (Exchange.guarded addr 2))
      0 addr 2

abbrev returned : Proxying libraries Fraction
returned =
    let s = connect_step libraries net request dialed 0 addr 2 in
    push_step libraries net request
      (goes_on libraries
        (touch libraries net request (goes_on libraries s 0 (Exchange.sending addr 2 0)) 2
          (succeeding libraries net request))
        0 (Exchange.returning addr 2 0))
      0 addr 2 0

-- The second request has the first one's connection.
abbrev reused : Proxying libraries Fraction
reused =
    pop_step libraries net request
      (goes_on libraries (touch libraries net request returned 2 (with_guard libraries net request))
        1 (Exchange.guarded addr 2))
      1 addr 2

reused-exchanges : reused.exchanges ≡ Exchange.pooled addr 2 ∷ Exchange.checking addr 2 0 ∷ []
unfolding program pop_step push_step connect_step
reused-exchanges = refl

dialed-Run : Run initial dialed
unfolding program pop_step
dialed-Run =
    later
      (later (later (later here (select 50 2 refl)) (select 50 2 refl))
        (move 0 net request _ refl (guard addr 2)))
      (move 0 net request _ refl (pop addr 2))

returned-Run : Run initial returned
unfolding program pop_step connect_step push_step
returned-Run =
    later
      (later
        (later (later dialed-Run (move 0 net request _ refl (connect addr 2 refl)))
          (move 0 net request _ refl (prepared addr 2 0 refl refl)))
        (move 0 net request _ refl (response addr 2 0 refl)))
      (move 0 net request _ refl (give_back addr 2 0))

reused-Run : Run initial reused
unfolding program pop_step connect_step push_step
reused-Run =
    later (later returned-Run (move 1 net request _ refl (guard addr 2)))
      (move 1 net request _ refl (pop addr 2))

Reach-Exclusive_example : Exclusive libraries reused
Reach-Exclusive_example = Reach-Exclusive libraries (server 5) refl reused-Run
