-- ===== src/Proxy/Server/Listener/Flights.antt =====
-- The requests in flight at each backend, over all interleavings of connections and requests.
use vortex_proxy.Prelude.{
  ℕ, ◌%◌, ◌≤◌, ◌≡◌, arith, u64_mod, total, total-append, total-set, total_none, refl, subst,
  Bool-cases, inl, inr, Text, if◌then◌else◌, ◌==◌, Bool, List, [], ◌∷◌,
}
use vortex_proxy.Float.{Float}
use vortex_proxy.Core.Backend.{SharedBackend, with_models}
use vortex_proxy.Core.Ewma
use vortex_proxy.Net.{SocketAddr}
use vortex_proxy.Proxy.HealthChecker.Rounds.{check_round-heap}
use vortex_proxy.Proxy.Server.{Libraries, ServerContext}
use vortex_proxy.Proxy.Server.Phases.Effects.{
  admit-active_requests, complete-active_requests, cancel-active_requests,
}
use vortex_proxy.Proxy.Server.Listener.{
  IsElsewhere, Task, spawned, shaking, serving, forwarding, ended, Listener, bound, Step, accept,
  accept_error, shutdown, start, handshake, handshake_failed, answer, forward, reply, crash, abort,
  close, probe_round, bans_change, allocate, replace_table, Reach, here, later,
}
use vortex_proxy.Proxy.Server.Listener.Counts.{open_connections}

-- Whether a task waits for backend `j`.
abbrev pub in_flight : SharedBackend → Task → ℕ
in_flight j (spawned _) = 0
in_flight j (shaking _) = 0
in_flight j (serving _) = 0
in_flight j (forwarding _ b _) = if b == j then 1 else 0
in_flight j ended = 0

pub in_flight-le-guards :
    (j : SharedBackend) (tasks : List Task) → total (in_flight j) tasks ≤ open_connections tasks
in_flight-le-guards j [] = omega arith
in_flight-le-guards j (spawned _ ∷ tasks) = omega (arith, in_flight-le-guards j tasks)
in_flight-le-guards j (shaking _ ∷ tasks) = omega (arith, in_flight-le-guards j tasks)
in_flight-le-guards j (serving _ ∷ tasks) = omega (arith, in_flight-le-guards j tasks)
in_flight-le-guards j (forwarding _ b _ ∷ tasks) = ground (arith, in_flight-le-guards j tasks)
in_flight-le-guards j (ended ∷ tasks) = omega (arith, in_flight-le-guards j tasks)

elsewhere : (b : SharedBackend) (task : Task) → IsElsewhere b task → in_flight b task ≡ 0
elsewhere b (spawned _) h = refl
elsewhere b (shaking _) h = refl
elsewhere b (serving _) h = refl
elsewhere b (forwarding _ c _) h = ground (arith, h)
elsewhere b ended h = refl

with_models-idle {ℓ} :
    {F : Type ℓ} ⦃f : Float F⦄ (baseline balanced : F) (id : ℕ) (addr : SocketAddr)
    (models : List Text)
    → (with_models baseline balanced id addr models).ewma.active_requests ≡ 0
unfolding with_models Ewma.new
with_models-idle baseline balanced id addr models = refl

abbrev pub Flying {ℓ} :
    {Sender S R : Type 0} (L : Libraries Sender S R) {F : Type ℓ}
    → Listener L F
    → SharedBackend
    → Type 0
Flying L s j = (s.ctx.heap j).ewma.active_requests ≡ total (in_flight j) s.tasks % u64_mod

module _ {ℓ} {Sender S R : Type 0} (L : Libraries Sender S R) {F : Type ℓ} ⦃f : Float F⦄
    {Response Value : Type 0} (tls : Bool) where
  Step-Flying :
      (s t : Listener L F) (j : SharedBackend)
      → Step L Response Value tls s t
      → Flying L s j
      → Flying L t j
  Step-Flying s t j (accept client on e) v =
      ground (arith, v, total-append (in_flight j) s.tasks (spawned client ∷ []))
  Step-Flying s t j (accept_error on e) v = ground (arith, v)
  Step-Flying s t j (shutdown on e) v = ground (arith, v)
  Step-Flying s t j (start i client at e) v = ground (
    arith,
    v,
    total-set (in_flight j) s.tasks i (shaking client) at,
    total-set (in_flight j) s.tasks i (serving client) at,
  )
  Step-Flying s t j (handshake i client at e) v =
      ground (arith, v, total-set (in_flight j) s.tasks i (serving client) at)
  Step-Flying s t j (handshake_failed i client at e) v =
      ground (arith, v, total-set (in_flight j) s.tasks i ended at)
  Step-Flying s t j (answer i client net req sent at out e) v =
      ground (arith, v, out, admit-active_requests L net req s.ctx client j)
  Step-Flying s t j (forward i client net req b at out e) v = ground (
    arith,
    v,
    out,
    admit-active_requests L net req s.ctx client j,
    total-set (in_flight j) s.tasks i (forwarding client b req.path) at,
  )
  Step-Flying s t j (crash i client net req b at out e) v = ground (
    arith,
    v,
    complete-active_requests L net req s.ctx b j,
    total-set (in_flight j) s.tasks i ended at,
  )
  Step-Flying s t j (reply i client net req b at out e) v = ground (
    arith,
    v,
    complete-active_requests L net req s.ctx b j,
    total-set (in_flight j) s.tasks i (serving client) at,
  )
  Step-Flying s t j (abort i client net req b at e) v = ground (
    arith,
    v,
    cancel-active_requests L net req s.ctx b j,
    total-set (in_flight j) s.tasks i ended at,
  )
  Step-Flying s t j (close i client at e) v =
      ground (arith, v, total-set (in_flight j) s.tasks i ended at)
  Step-Flying s t j (probe_round connects e) v =
      ground (arith, v, check_round-heap L.cells s.ctx.routing_table s.ctx.heap connects j)
  Step-Flying s t j (bans_change manager e) v = ground (arith, v)
  Step-Flying s t j (allocate baseline balanced b id addr models unused e) v =
      elim (Bool-cases (b == j)) [
        | inr other ↦ ground (arith, v, other)
        | inl same ↦
            let eq : b ≡ j = ground (arith, same) in
            let none_waits =
              total_none (IsElsewhere b) (in_flight b) s.tasks (elsewhere b) unused in
            let none_waits' = subst (λ k. total (in_flight k) s.tasks ≡ 0) eq none_waits in
            let idle = with_models-idle baseline balanced id addr models in
            ground (arith, same, none_waits', idle)
      ]
  Step-Flying s t j (replace_table backends e) v = ground (arith, v)

  pub Reach-Flying_on :
      (s : Listener L F) {t : Listener L F}
      → Reach L Response Value tls s t
      → ((j : SharedBackend) → Flying L s j)
      → (j : SharedBackend) → Flying L t j
  Reach-Flying_on s here v j = v j
  Reach-Flying_on s (later {t = t} {u = u} r st) v j =
      Step-Flying t u j st (Reach-Flying_on s r v j)

  pub Reach-Flying :
      (ctx : ServerContext L F) {s : Listener L F}
      → ((j : SharedBackend) → (ctx.heap j).ewma.active_requests ≡ 0)
      → Reach L Response Value tls (bound L ctx) s
      → (j : SharedBackend) → Flying L s j
  Reach-Flying ctx idle r j = Reach-Flying_on (bound L ctx) r (λ k. omega (arith, idle k)) j
