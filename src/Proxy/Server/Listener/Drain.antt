-- ===== src/Proxy/Server/Listener/Drain.antt =====
-- A way on in which all connections of the accept loop end.
use vortex_proxy.Prelude.{
  ℕ, zero, suc, Option, none, Text, ◌+◌, ◌≤◌, ◌<◌, ◌≡◌, refl, some, false, All, Bool, ◌⊎◌, inl, inr,
  arith, total, total-set, List, [], ◌∷◌, get_elem?,
}
use vortex_proxy.Float.{Float}
use vortex_proxy.Core.Backend.{SharedBackend}
use vortex_proxy.Proxy.Server.{Libraries, Network, Request, refused, ServerContext}
use vortex_proxy.Proxy.Server.Phases.{cancel}
use vortex_proxy.Proxy.Server.Listener.Flights.{in_flight-le-guards, Reach-Flying, Reach-Flying_on}
use vortex_proxy.Proxy.Server.Listener.{
  with_ctx, Task, spawned, shaking, serving, forwarding, ended, Listener, bound, begin, finish,
  Step, start, handshake_failed, abort, close, Reach, here, later,
}
use vortex_proxy.Proxy.Server.Listener.Shutdown.{steps_left}
use vortex_proxy.Proxy.Server.Listener.Counts.{open_connections, Reach-Counted, Reach-Counted_on}

guards-le-steps_left : (tasks : List Task) → open_connections tasks ≤ total steps_left tasks
guards-le-steps_left [] = omega arith
guards-le-steps_left (spawned _ ∷ tasks) = omega (arith, guards-le-steps_left tasks)
guards-le-steps_left (shaking _ ∷ tasks) = omega (arith, guards-le-steps_left tasks)
guards-le-steps_left (serving _ ∷ tasks) = omega (arith, guards-le-steps_left tasks)
guards-le-steps_left (forwarding _ _ _ ∷ tasks) = omega (arith, guards-le-steps_left tasks)
guards-le-steps_left (ended ∷ tasks) = omega (arith, guards-le-steps_left tasks)

All-ended : (tasks : List Task) → total steps_left tasks ≡ 0 → All (λ task. task ≡ ended) tasks
All-ended [] h = tt
All-ended (spawned _ ∷ tasks) h = absurd (omega (arith, h))
All-ended (shaking _ ∷ tasks) h = absurd (omega (arith, h))
All-ended (serving _ ∷ tasks) h = absurd (omega (arith, h))
All-ended (forwarding _ _ _ ∷ tasks) h = absurd (omega (arith, h))
All-ended (ended ∷ tasks) h = (refl, All-ended tasks (omega (arith, h)))

-- The first task that is not over, if there is one.
place :
    (tasks : List Task)
    → (total steps_left tasks ≡ 0)
      ⊎ ((i : ℕ) × (task : Task) × (get_elem? tasks i ≡ some task) × (0 < steps_left task))
place [] = inl refl
place (spawned c ∷ tasks) = inr (0, spawned c, refl, omega arith)
place (shaking c ∷ tasks) = inr (0, shaking c, refl, omega arith)
place (serving c ∷ tasks) = inr (0, serving c, refl, omega arith)
place (forwarding c b p ∷ tasks) = inr (0, forwarding c b p, refl, omega arith)
place (ended ∷ tasks) = elim (place tasks) [
  | inl over ↦ inl (omega arith)
  | inr (i, task, at, left) ↦ inr (suc i, task, at, left)
]

-- A request of a path, and a network on which nothing answers.
abbrev any_request : {Value : Type 0} → Option Text → Request Value
any_request path = record { headers = record { get = λ _. none; to_str = λ _. none }; path = path }

abbrev unreachable {ℓ} :
    {Sender Response : Type 0} {F : Type ℓ} ⦃f : Float F⦄ → Network Sender Response F
unreachable ⦃f⦄ = record {
  ban_instant = 0;
  select_secs = 0;
  failure_secs = 0;
  closed_at_pop = λ _. false;
  closed_at_push = λ _. false;
  pooled_ready = λ _. false;
  connect = λ _. refused;
  ready = λ _. false;
  send_request = λ _ _. none;
  rtt_ms = f.one;
}

module _ {ℓ} {Sender S R : Type 0} (L : Libraries Sender S R) {F : Type ℓ} ⦃f : Float F⦄
    {Response Value : Type 0} (tls : Bool) where
  -- 0 for a step of a task that begins, fails its handshake, ends or goes away.
  abbrev pub others : {s t : Listener L F} → Step L Response Value tls s t → ℕ
  others (start _ _ _ _) = 0
  others (handshake_failed _ _ _ _) = 0
  others (abort _ _ _ _ _ _ _) = 0
  others (close _ _ _ _) = 0
  others _ = 1

  abbrev pub others_of : {s t : Listener L F} → Reach L Response Value tls s t → ℕ
  others_of here = 0
  others_of (later r st) = others_of r + others st

  -- A step that takes the task at place `i` nearer to its end.
  nearer :
      (s : Listener L F) (i : ℕ) (task : Task)
      → get_elem? s.tasks i ≡ some task
      → 0 < steps_left task
      → (t : Listener L F) × (st : Step L Response Value tls s t) × (total steps_left t.tasks
          < total steps_left s.tasks)
        × (others st ≡ 0)
  nearer s i (spawned client) at h = (
    begin L tls s i client,
    start i client at refl,
    ground (
      arith,
      total-set steps_left s.tasks i (shaking client) at,
      total-set steps_left s.tasks i (serving client) at,
    ),
    refl,
  )
  nearer s i (shaking client) at h = (
    finish L s i,
    handshake_failed i client at refl,
    ground (arith, total-set steps_left s.tasks i ended at),
    refl,
  )
  nearer s i (serving client) at h = (
    finish L s i,
    close i client at refl,
    ground (arith, total-set steps_left s.tasks i ended at),
    refl,
  )
  nearer s i (forwarding client b path) at h = (
    with_ctx L (finish L s i) (cancel L unreachable (any_request path) s.ctx b),
    abort i client unreachable (any_request path) b at refl,
    ground (arith, total-set steps_left s.tasks i ended at),
    refl,
  )
  nearer s i ended at h = absurd (omega arith)

  earlier :
      {s t u : Listener L F}
      → Step L Response Value tls s t
      → Reach L Response Value tls t u
      → Reach L Response Value tls s u
  earlier st here = later here st
  earlier st (later r last) = later (earlier st r) last

  others_of-earlier :
      {s t u : Listener L F} (st : Step L Response Value tls s t)
      (r : Reach L Response Value tls t u)
      → others_of (earlier st r) ≡ others st + others_of r
  unfolding earlier
  others_of-earlier st here = omega arith
  others_of-earlier st (later r last) = omega (arith, others_of-earlier st r)

  wind_down :
      (fuel : ℕ) (s : Listener L F)
      → total steps_left s.tasks < fuel
      → (t : Listener L F) × (r : Reach L Response Value tls s t) × (total steps_left t.tasks ≡ 0)
        × (others_of r ≡ 0)
  wind_down zero s h = elim h [ ]
  wind_down (suc fuel) s h = elim (place s.tasks) [
    | inl none_left ↦ (s, here, none_left, refl)
    | inr (i, task, at, left) ↦
        let (t, st, less, own) = nearer s i task at left in
        let (u, r, over, only) = wind_down fuel t (omega arith) in
        (u, earlier st r, over, omega (arith, own, only, others_of-earlier st r))
  ]

  -- From every state that the server reaches there is a way on, with no request, no accepted connection
  -- and no step of another part in it, after which every task has ended, the counter of active
  -- connections is 0, and so is the number of requests in flight at every backend, provided that it was
  -- 0 at the start: nothing stays counted of a connection that has ended, also where it ended before the
  -- reply.
  pub bound-drains :
      (ctx : ServerContext L F) (s : Listener L F)
      → ((j : SharedBackend) → (ctx.heap j).ewma.active_requests ≡ 0)
      → Reach L Response Value tls (bound L ctx) s
      → (t : Listener L F) × (r : Reach L Response Value tls s t) × (others_of r ≡ 0)
        × All (λ task. task ≡ ended) t.tasks
        × (t.active_connections ≡ 0)
        × ((j : SharedBackend) → (t.ctx.heap j).ewma.active_requests ≡ 0)
  bound-drains ctx s idle reached =
      let (t, r, over, only) = wind_down (total steps_left s.tasks + 1) s (omega arith) in
      let closed = guards-le-steps_left t.tasks in
      let counted = Reach-Counted_on L tls s r (Reach-Counted L tls ctx reached) in
      (
        t,
        r,
        only,
        All-ended t.tasks over,
        omega arith,
        λ j.
            let waiting = in_flight-le-guards j t.tasks in
            let held = Reach-Flying_on L tls s r (Reach-Flying L tls ctx idle reached) j in
            omega (arith, waiting, held, closed, over),
      )
