-- ===== src/Proxy/Server/Exchange/Ownership.antt =====
-- What a step of a request does to who has which connection.
use vortex_proxy.Prelude.{
  ℕ, ◌+◌, ◌≤◌, ◌≡◌, ◌≢◌, ◌⊎◌, refl, subst, Bool, Option, none, some, Bool-cases, inl, inr, List, [],
  ◌∷◌, ◌++◌, All, get_elem?, set, total, total-set, length, if◌then◌else◌, ◌==◌, arith, head?,
  total_none, All-set, All-mono, All-get_elem?, get_elem?-append, get_elem?-length,
}
use vortex_proxy.Net.{SocketAddr}
use vortex_proxy.Core.Backend.{SharedBackend}
use vortex_proxy.Proxy.ConnectionPool.Pooling.{from_open, tail}
use vortex_proxy.Proxy.Server.Exchange.Queues.{
  is, one, popped-total, Handed, popped-All, everywhere, pushed-total, pushed-All,
}
use vortex_proxy.Proxy.Server.Exchange.Home.{
  holds, IsHome, idle_elsewhere, fresh, fresh-holds, IsHome-append, after_pop-IsHome,
  holds-after_pop,
}
use vortex_proxy.Proxy.Server.Exchange.{
  Exchange, guarded, dialing, preparing, returning, pooled, after_pop,
}

-- The idle connections of an address were made to it; those that exchanges hold, to theirs; and none is
-- there twice, in one of the two places or in both.
pub record IsExclusive (idle_at : SocketAddr → List ℕ) (opened : List SocketAddr)
    (exchanges : List Exchange) : Type 0 where
  pub pool_home : (addr : SocketAddr) → All (λ n. get_elem? opened n ≡ some addr) (idle_at addr)
  pub held_home : All (IsHome opened) exchanges
  pub once :
      (addr : SocketAddr) (n : ℕ) → total (is n) (idle_at addr) + total (holds n) exchanges ≤ 1

module _ {idle_at : SocketAddr → List ℕ} {opened : List SocketAddr} {exchanges : List Exchange}
    (v : IsExclusive idle_at opened exchanges) (i : ℕ) where
  -- An exchange goes on with the connection that it has, or with none.
  pub keeps :
      (e e' : Exchange)
      → get_elem? exchanges i ≡ some e
      → IsHome opened e'
      → ((n : ℕ) → holds n e' ≤ holds n e)
      → IsExclusive idle_at opened (set exchanges i e')
  keeps e e' at home le = record {
    pool_home = v.pool_home;
    held_home = All-set (IsHome opened) exchanges i e' v.held_home home;
    once = λ addr n. omega (arith, v.once addr n, total-set (holds n) exchanges i e' at, le n);
  }

  -- What was popped is in no other queue.
  apart :
      (closed : ℕ → Bool) (addr other : SocketAddr) (n : ℕ) (o : Option ℕ)
      → Handed (λ m. get_elem? opened m ≡ some addr) closed o
      → other ≢ addr
      → (one n o ≡ 0) ⊎ ((one n o ≡ 1) × (total (is n) (idle_at other) ≡ 0))
  apart closed addr other n none h ne = inl refl
  apart closed addr other n (some m) h ne = elim (Bool-cases (m == n)) [
    | inr different ↦ inl (ground (arith, different))
    | inl same ↦
        let eq : m ≡ n = ground (arith, same) in
        let made = subst (λ k. get_elem? opened k ≡ some addr) eq h in
        inr (
          ground (arith, same),
          idle_elsewhere opened n addr other (idle_at other) made ne (v.pool_home other),
        )
  ]

  pub pops :
      (closed : ℕ → Bool) (addr : SocketAddr) (b : SharedBackend) (after : SocketAddr → List ℕ)
      → get_elem? exchanges i ≡ some (guarded addr b)
      → after addr ≡ tail (from_open closed (idle_at addr))
      → ((other : SocketAddr) → other ≢ addr → after other ≡ idle_at other)
      → IsExclusive after opened
          (set exchanges i (after_pop addr b (head? (from_open closed (idle_at addr)))))
  pops closed addr b after at here_left elsewhere =
      let P : ℕ → Type 0 = λ m. get_elem? opened m ≡ some addr in
      let o = head? (from_open closed (idle_at addr)) in
      let (handed, left) = popped-All P closed (idle_at addr) (v.pool_home addr) in
      let new = after_pop addr b o in
      record {
        pool_home =
            everywhere (λ q. All (λ m. get_elem? opened m ≡ some q) (after q)) addr
              (rw here_left left) (λ q ne. rw (elsewhere q ne) (v.pool_home q));
        held_home =
            All-set (IsHome opened) exchanges i new v.held_home
              (after_pop-IsHome opened closed addr b o handed);
        once = λ q n.
            let count = total-set (holds n) exchanges i new at in
            let popped = popped-total closed n (idle_at addr) in
            let held = holds-after_pop n addr b o in
            everywhere (λ r. total (is n) (after r) + total (holds n) (set exchanges i new) ≤ 1)
              addr (rw here_left (omega (arith, v.once addr n, count, popped, held)))
              (λ r ne. rw (elsewhere r ne) (elim (apart closed addr r n o handed ne) [
                | inl nothing ↦ omega (arith, v.once r n, count, held, nothing)
                | inr (taken, no_idle) ↦
                    omega (arith, v.once addr n, count, popped, held, taken, no_idle)
              ]))
              q;
      }

  pub pushes :
      (closed : Bool) (addr : SocketAddr) (b : SharedBackend) (n : ℕ) (after : SocketAddr → List ℕ)
      → get_elem? exchanges i ≡ some (returning addr b n)
      → after addr ≡ (if closed then idle_at addr else idle_at addr ++ n ∷ [])
      → ((other : SocketAddr) → other ≢ addr → after other ≡ idle_at other)
      → IsExclusive after opened (set exchanges i (pooled addr b))
  pushes closed addr b n after at here_left elsewhere =
      let P : ℕ → Type 0 = λ m. get_elem? opened m ≡ some addr in
      let home = All-get_elem? (IsHome opened) exchanges i at v.held_home in
      record {
        pool_home =
            everywhere (λ q. All (λ m. get_elem? opened m ≡ some q) (after q)) addr
              (rw here_left (pushed-All P n closed (idle_at addr) (v.pool_home addr) home))
              (λ q ne. rw (elsewhere q ne) (v.pool_home q));
        held_home = All-set (IsHome opened) exchanges i (pooled addr b) v.held_home tt;
        once = λ q k.
            let count = total-set (holds k) exchanges i (pooled addr b) at in
            let pushed = pushed-total k n closed (idle_at addr) in
            everywhere
              (λ r. total (is k) (after r) + total (holds k) (set exchanges i (pooled addr b)) ≤ 1)
              addr (rw here_left (omega (arith, v.once addr k, count, pushed)))
              (λ r ne. rw (elsewhere r ne) (omega (arith, v.once r k, count))) q;
      }

  pub connects :
      (addr : SocketAddr) (b : SharedBackend)
      → get_elem? exchanges i ≡ some (dialing addr b)
      → IsExclusive idle_at
          (opened ++ addr ∷ [])
          (set exchanges i (preparing addr b (length opened)))
  connects addr b at =
      let n = length opened in
      let new = preparing addr b n in
      record {
        pool_home = λ q.
            All-mono (λ m. get_elem? opened m ≡ some q)
              (λ m. get_elem? (opened ++ addr ∷ []) m ≡ some q) (idle_at q)
              (λ m h. get_elem?-append opened addr m h) (v.pool_home q);
        held_home =
            All-set (IsHome (opened ++ addr ∷ [])) exchanges i new
              (All-mono (IsHome opened) (IsHome (opened ++ addr ∷ [])) exchanges
                (IsHome-append opened addr) v.held_home)
              (get_elem?-length opened addr).1;
        once = λ q k.
            let count = total-set (holds k) exchanges i new at in
            elim (Bool-cases (n == k)) [
              | inr other ↦ ground (arith, v.once q k, count, other)
              | inl same ↦
                  let eq : n ≡ k = ground (arith, same) in
                  let held : total (holds n) exchanges ≡ 0 =
                    total_none (IsHome opened) (holds n) exchanges (fresh-holds opened)
                      v.held_home in
                  let pool : total (is n) (idle_at q) ≡ 0 =
                    total_none (λ m. get_elem? opened m ≡ some q) (is n) (idle_at q)
                      (λ m. fresh opened m) (v.pool_home q) in
                  let held' = subst (λ j. total (holds j) exchanges ≡ 0) eq held in
                  let pool' = subst (λ j. total (is j) (idle_at q) ≡ 0) eq pool in
                  ground (arith, held', pool', count, same)
            ];
      }
