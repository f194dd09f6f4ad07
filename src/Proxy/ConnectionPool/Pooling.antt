-- ===== src/Proxy/ConnectionPool/Pooling.antt =====
-- What a caller of pool.rs sees: a queue of idle connections for each address.
use mathlib.Core.Logic.{ite}
use vortex_proxy.Prelude.{
  ℕ, zero, suc, ◌+◌, ◌<◌, ◌≡◌, ◌≢◌, refl, sym, ap, ◌∙◌, Bool, true, false, none, some, List, [],
  ◌∷◌, ◌++◌, arith, if◌then◌else◌, length, head?, Bool-cases, inl, inr, Option-cases, subst, eq-ite,
}
use vortex_proxy.Net.{SocketAddr, SocketAddr-discrete}
use vortex_proxy.DashMap.{DashMap}
use vortex_proxy.SegQueue.{SegQueue}
use vortex_proxy.Proxy.ConnectionPool.{new, ConnectionPool, pop_open, try_pop, queue_at, push}

module _ {Sender : Type 0} (is_closed : Sender → Bool) where
  -- The connections from the oldest that is still open.
  abbrev pub from_open : List Sender → List Sender
  from_open [] = []
  from_open (s ∷ rest) = elim (is_closed s) [ false ↦ s ∷ rest | true ↦ from_open rest ]

abbrev pub tail : {A : Type 0} → List A → List A
tail [] = []
tail (x ∷ xs) = xs

module _ {Sender : Type 0} (Q : SegQueue Sender)
    (D : DashMap SocketAddr Q.Queue SocketAddr-discrete) where
  -- The idle connections of an address, oldest first.
  unfoldable pub idle : ConnectionPool Q D → SocketAddr → List Sender
  unfolding queue_at
  idle pool addr = Q.contents (queue_at Q D pool addr)

  pub idle-new : (addr : SocketAddr) → idle (new Q D) addr ≡ []
  unfolding idle new queue_at
  idle-new addr = ground (arith, D.get-empty addr, Q.contents-new)

  module _ (is_closed : Sender → Bool) where
    pop_open-from_open :
        (fuel : ℕ) (l : List Sender) (queue : Q.Queue)
        → Q.contents queue ≡ l
        → length l < fuel
        → ((pop_open Q D is_closed fuel queue).0 ≡ head? (from_open is_closed l))
          × (Q.contents (pop_open Q D is_closed fuel queue).1 ≡ tail (from_open is_closed l))
    unfolding pop_open
    pop_open-from_open zero l queue e h = absurd (omega arith)
    pop_open-from_open (suc fuel) [] queue e h = ground (arith, Q.pop_nil queue e)
    pop_open-from_open (suc fuel) (s ∷ l) queue e h =
        let (r, popped, left) = Q.pop_cons queue s l e in
        ground (arith, popped, left, pop_open-from_open fuel l r left (omega arith))

    idle_absent :
        (pool : ConnectionPool Q D) (addr : SocketAddr)
        → D.get pool.idle_connections addr ≡ none
        → idle pool addr ≡ []
    unfolding idle
    idle_absent pool addr e = ground (arith, Q.contents-new)

    idle_present :
        (pool : ConnectionPool Q D) (addr : SocketAddr) {queue : Q.Queue}
        → D.get pool.idle_connections addr ≡ some queue
        → idle pool addr ≡ Q.contents queue
    unfolding idle
    idle_present pool addr e = ground arith

    idle-insert_self :
        (pool : ConnectionPool Q D) (addr : SocketAddr) (queue : Q.Queue)
        → idle (record { idle_connections = D.insert pool.idle_connections addr queue }) addr
          ≡ Q.contents queue
    idle-insert_self pool addr queue =
        idle_present _ addr (D.get-insert_self pool.idle_connections addr queue)

    idle-insert_ne :
        (pool : ConnectionPool Q D) (addr other : SocketAddr) (queue : Q.Queue)
        → other ≢ addr
        → idle (record { idle_connections = D.insert pool.idle_connections addr queue }) other
          ≡ idle pool other
    unfolding idle queue_at
    idle-insert_ne pool addr other queue n =
        ground (arith, D.get-insert_ne pool.idle_connections addr other queue n)

    pub try_pop-idle :
        (pool : ConnectionPool Q D) (addr : SocketAddr)
        → ((try_pop Q D is_closed pool addr).1 ≡ head? (from_open is_closed (idle pool addr)))
          × (idle (try_pop Q D is_closed pool addr).0 addr
              ≡ tail (from_open is_closed (idle pool addr)))
          × ((other : SocketAddr)
              → other ≢ addr
              → idle (try_pop Q D is_closed pool addr).0 other ≡ idle pool other)
    unfolding try_pop
    try_pop-idle pool addr = elim (Option-cases (D.get pool.idle_connections addr)) [
      | inl e ↦
          let no_idle = idle_absent pool addr e in
          (rw (no_idle, e, try_pop), rw (e, try_pop) (rw no_idle), λ other n. rw (e, try_pop))
      | inr (queue, e) ↦
          let fuel = length (Q.contents queue) + 1 in
          let popped = pop_open-from_open fuel (Q.contents queue) queue refl (omega arith) in
          let was = idle_present pool addr e in
          (
            rw (e, try_pop) (rw was popped.0),
            rw (e, try_pop) (rw was (idle-insert_self pool addr _ ∙ popped.1)),
            λ other n. rw (e, try_pop) (idle-insert_ne pool addr other _ n),
          )
    ]

    -- `try_pop` hands out the oldest connection to the address that is still open, and nothing if
    -- there is none; it and the closed ones before it leave the pool, what came after it stays in
    -- order, and the connections to any other address stay as they are.
    pub try_pop-oldest_open :
        (pool : ConnectionPool Q D) (addr other : SocketAddr)
        → ((try_pop Q D is_closed pool addr).1 ≡ head? (from_open is_closed (idle pool addr)))
          × (idle (try_pop Q D is_closed pool addr).0 other
              ≡ ite
                  (SocketAddr-discrete other addr)
                  (tail (from_open is_closed (idle pool other)))
                  (idle pool other))
    try_pop-oldest_open pool addr other =
        let (popped, self, rest) = try_pop-idle pool addr in
        let after = (try_pop Q D is_closed pool addr).0 in
        (
          popped,
          eq-ite (SocketAddr-discrete other addr)
              (λ e.
                subst (λ o. idle after o ≡ tail (from_open is_closed (idle pool o))) (sym e) self)
              (rest other),
        )

    pub push-idle :
        (pool : ConnectionPool Q D) (addr : SocketAddr) (sender : Sender)
        → (idle (push Q D is_closed pool addr sender) addr
            ≡ (if is_closed sender then idle pool addr else idle pool addr ++ sender ∷ []))
          × ((other : SocketAddr)
              → other ≢ addr
              → idle (push Q D is_closed pool addr sender) other ≡ idle pool other)
    unfolding push
    push-idle pool addr sender = elim (Bool-cases (is_closed sender)) [
      | inl e ↦ (rw e, λ other n. rw e)
      | inr e ↦ (
        rw e (
            idle-insert_self pool addr _
            ∙ Q.contents-push (queue_at Q D pool addr) sender
            ∙ ap (λ l. l ++ sender ∷ []) (sym (unfold idle in refl))),
        λ other n. rw e (idle-insert_ne pool addr other _ n),
      )
    ]

    -- `push` puts an open connection behind those to the same address, drops a closed one, and leaves
    -- the connections to any other address as they are.
    pub push-newest :
        (pool : ConnectionPool Q D) (addr other : SocketAddr) (sender : Sender)
        → idle (push Q D is_closed pool addr sender) other
          ≡ ite
              (SocketAddr-discrete other addr)
              (if is_closed sender then idle pool other else idle pool other ++ sender ∷ [])
              (idle pool other)
    push-newest pool addr other sender =
        let (self, rest) = push-idle pool addr sender in
        eq-ite (SocketAddr-discrete other addr)
          (λ e.
            subst
              (λ o.
                idle (push Q D is_closed pool addr sender) o
                ≡ (if is_closed sender then idle pool o else idle pool o ++ sender ∷ []))
              (sym e) self)
          (rest other)
