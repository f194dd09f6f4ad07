-- ===== src/Proxy/Server/Listener/Tests.antt =====
-- The theorems on `start_server` at a run with two connections: the first is served and
-- closed, the second begins its handshake after the shutdown.
use vortex_proxy.Prelude.{ℕ, ◌*◌, ◌≤◌, ◌≡◌, refl, arith, true, false, [], ◌∷◌, length, Text, All}
use vortex_proxy.Float.Fraction.{Fraction, fraction_float}
use vortex_proxy.Core.Backend.{SharedBackend}
use vortex_proxy.Proxy.Server.Sample.{program, libraries, server, client}
use vortex_proxy.Proxy.Server.Listener.{
  Listener, bound, spawn, begin, finish, with_ctx, Step, Reach, here, later, accept, start,
  handshake, handshake_failed, close, shutdown,
}
use vortex_proxy.Proxy.Server.Listener.Shutdown.{moves_of, accepts_of, shutdown-terminates}
use vortex_proxy.Proxy.Server.Listener.Drain.{others_of, bound-drains}
use vortex_proxy.Proxy.Server.Listener

abbrev Run : Listener libraries Fraction → Listener libraries Fraction → Type 0
Run = Reach libraries ℕ Text true

abbrev initial : Listener libraries Fraction
initial = bound libraries (server 0)

-- Two connections, the first of which is served.
abbrev serving_one : Listener libraries Fraction
serving_one = record initial {
  active_connections = 1;
  tasks = Listener.serving client ∷ Listener.spawned client ∷ [];
}

serving_one-Run : Run initial serving_one
serving_one-Run =
    later
      (later (later (later here (accept client refl refl)) (accept client refl refl))
        (start 0 client refl refl))
      (handshake 0 client refl refl)

abbrev stopped : Listener libraries Fraction
stopped = record serving_one { accepting = false }

abbrev shaking_last : Listener libraries Fraction
shaking_last = record stopped {
  active_connections = 1;
  tasks = Listener.ended ∷ Listener.shaking client ∷ [];
}

winding_down : Run stopped shaking_last
winding_down = later (later here (close 0 client refl refl)) (start 1 client refl refl)

shutdown-terminates_example :
    (accepts_of libraries true winding_down ≡ 0)
    × (length shaking_last.tasks ≡ length serving_one.tasks)
    × (moves_of libraries true winding_down ≤ 3 * length serving_one.tasks)
shutdown-terminates_example =
    shutdown-terminates libraries true serving_one stopped (shutdown refl refl) winding_down refl

idle : (j : SharedBackend) → (initial.ctx.heap j).ewma.active_requests ≡ 0
unfolding program
idle j = ground arith

bound-drains_example :
    (t : Listener libraries Fraction) × (r : Run serving_one t) × (others_of libraries true r ≡ 0)
    × All (λ task. task ≡ Listener.ended) t.tasks
    × (t.active_connections ≡ 0)
    × ((j : SharedBackend) → (t.ctx.heap j).ewma.active_requests ≡ 0)
bound-drains_example = bound-drains libraries true (server 0) serving_one idle serving_one-Run
