-- ===== src/Proxy/BanManager/Concurrent.antt =====
-- ban_manager.rs when any number of threads ban at once and the sweeper runs: `ban_ip` blocks in the
-- limiter and then inserts into the map, and another thread may come between. A sweep is one step.
-- The limiter is lawful, so that a call of it never fails.
use vortex_proxy.Prelude.{
  ℕ, ◌+◌, ◌≤◌, ◌≡◌, ◌⊎◌, inl, inr, refl, subst, Bool-cases, true, false, some, arith, update,
}
use vortex_proxy.Net.{IpAddr, IpAddr-discrete}
use vortex_proxy.DashMap.{DashMap}
use vortex_proxy.Ebpf.{XdpRateLimiter, IsLawful}
use vortex_proxy.Proxy.BanManager.{BanManager, is_blocked, sweep}
use vortex_proxy.Proxy.BanManager.Expiry.{is_expired}
use vortex_proxy.Proxy.BanManager.Lifecycle.{is_some, get-sweep, blocked-sweep, get-insert}

-- Outside `ban_ip`; in it, with the address blocked and not yet in the map.
pub data Pc : Type 0 where
  idle : Pc
  blocked : IpAddr → Pc

module _ {S : Type 0} (X : XdpRateLimiter S) (D : DashMap IpAddr ℕ IpAddr-discrete) where
  pub record System : Type 0 where
    pub manager : BanManager X D
    pub pc : ℕ → Pc

  abbrev pub after_block : System → ℕ → S → IpAddr → System
  after_block s i x ip = record {
    manager = record s.manager { limiter = some (X.block_ip x ip).0 };
    pc = update s.pc i (blocked ip);
  }

  abbrev pub after_insert : System → ℕ → IpAddr → ℕ → System
  after_insert s i ip expiration = record {
    manager = record s.manager { banned_ips = D.insert s.manager.banned_ips ip expiration };
    pc = update s.pc i idle;
  }

  abbrev pub after_sweep : System → ℕ → System
  after_sweep s now = record s { manager = sweep X D s.manager now }

  pub data Step (s t : System) : Type 0 where
    block :
        (i : ℕ) (x : S) (ip : IpAddr)
        → s.manager.limiter ≡ some x
        → s.pc i ≡ idle
        → t ≡ after_block s i x ip
        → Step s t
    -- The clock is read here.
    insert :
        (i : ℕ) (ip : IpAddr) (duration now : ℕ)
        → s.pc i ≡ blocked ip
        → t ≡ after_insert s i ip (now + duration)
        → Step s t
    tick : (now : ℕ) → t ≡ after_sweep s now → Step s t

  pub data Reach (s : System) : System → Type 0 where
    here : Reach s s
    later : {t u : System} → Reach s t → Step t u → Reach s u

  -- The map has the address, or a thread is about to insert it.
  abbrev pub IsKnown : System → IpAddr → Type 0
  IsKnown s q = (is_some (D.get s.manager.banned_ips q) ≡ true) ⊎ ((i : ℕ) × (s.pc i ≡ blocked q))

  -- Thread `i` bans the address, and a sweep comes between its two steps.
  abbrev pub swept_between : System → ℕ → S → IpAddr → ℕ → ℕ → System
  swept_between s i x ip now expiration =
      after_insert (after_sweep (after_block s i x ip) now) i ip expiration

module _ {S : Type 0} (X : XdpRateLimiter S) (D : DashMap IpAddr ℕ IpAddr-discrete)
    (laws : IsLawful X) where
  block-IsKnown :
      (s : System X D) (i : ℕ) (x : S) (ip q : IpAddr)
      → s.manager.limiter ≡ some x
      → s.pc i ≡ idle
      → (is_blocked X s.manager.limiter q ≡ true → IsKnown X D s q)
      → is_blocked X (after_block X D s i x ip).manager.limiter q ≡ true
      → IsKnown X D (after_block X D s i x ip) q
  unfolding is_blocked
  block-IsKnown s i x ip q on at known h = elim (IpAddr-discrete ip q) [
    | yes e ↦ inr (i, ground (arith, e))
    | no apart ↦ elim (known (ground (arith, on, h, apart, laws.blocked-block x ip q))) [
      | inl listed ↦ inl listed
      | inr (j, there) ↦ inr (j, ground (arith, at, there))
    ]
  ]

  insert-IsKnown :
      (s : System X D) (i : ℕ) (ip q : IpAddr) (expiration : ℕ)
      → s.pc i ≡ blocked ip
      → IsKnown X D s q
      → IsKnown X D (after_insert X D s i ip expiration) q
  insert-IsKnown s i ip q expiration at (inl listed) =
      inl (ground (arith, listed, get-insert X D laws s.manager.banned_ips ip q expiration))
  insert-IsKnown s i ip q expiration at (inr (j, there)) = elim (IpAddr-discrete ip q) [
    | yes e ↦ inl (ground (arith, e, get-insert X D laws s.manager.banned_ips ip q expiration))
    | no apart ↦ inr (j, ground (arith, at, there, apart))
  ]

  sweep-IsKnown :
      (s : System X D) (now : ℕ) (q : IpAddr)
      → (is_blocked X s.manager.limiter q ≡ true → IsKnown X D s q)
      → is_blocked X (after_sweep X D s now).manager.limiter q ≡ true
      → IsKnown X D (after_sweep X D s now) q
  sweep-IsKnown s now q known h =
      let blocked_then = blocked-sweep X D laws s.manager now q in
      let listed_then = get-sweep X D laws s.manager now q in
      elim (Bool-cases (is_expired now (D.get s.manager.banned_ips q))) [
        | inl e ↦ absurd (ground (arith, e, h, blocked_then))
        | inr e ↦ elim (known (ground (arith, e, h, blocked_then))) [
          | inl listed ↦ inl (ground (arith, e, listed, listed_then))
          | inr there ↦ inr there
        ]
      ]

  -- However bans of any number of threads and sweeps interleave, the limiter blocks no address that is
  -- not in the map or about to be inserted by a thread that is in `ban_ip`, provided this was so before:
  -- no block is left behind that no sweep will lift.
  pub Reach-IsKnown :
      (s : System X D) {t : System X D}
      → Reach X D s t
      → ((q : IpAddr) → is_blocked X s.manager.limiter q ≡ true → IsKnown X D s q)
      → (q : IpAddr) → is_blocked X t.manager.limiter q ≡ true
      → IsKnown X D t q
  Reach-IsKnown s here known q h = known q h
  Reach-IsKnown s (later {t = t} r (block i x ip on at e)) known q h = rw e (
      block-IsKnown t i x ip q on at (Reach-IsKnown s r known q)
        (subst (λ (u : System X D). is_blocked X u.manager.limiter q ≡ true) e h))
  Reach-IsKnown s (later {t = t} r (insert i ip duration now at e)) known q h = rw e (
      insert-IsKnown t i ip q (now + duration) at (
        Reach-IsKnown s r known q
          (subst (λ (u : System X D). is_blocked X u.manager.limiter q ≡ true) e h)))
  Reach-IsKnown s (later {t = t} r (tick now e)) known q h = rw e (
      sweep-IsKnown t now q (Reach-IsKnown s r known q)
        (subst (λ (u : System X D). is_blocked X u.manager.limiter q ≡ true) e h))

  -- A client that is banned again when its old ban has run out, but is still in the map, can be left
  -- unblocked: if a sweep comes between the two steps of `ban_ip`, it lifts the block that was just set,
  -- and the map then has the new ban to its end while the limiter lets the client through.
  pub ban_ip-lost :
      (s : System X D) (i : ℕ) (x : S) (ip : IpAddr) (expired now duration clock : ℕ)
      → s.manager.limiter ≡ some x
      → s.pc i ≡ idle
      → D.get s.manager.banned_ips ip ≡ some expired
      → expired ≤ now
      → Reach X D s (swept_between X D s i x ip now (clock + duration))
        × (is_blocked X (swept_between X D s i x ip now (clock + duration)).manager.limiter ip
            ≡ false)
        × (D.get (swept_between X D s i x ip now (clock + duration)).manager.banned_ips ip
            ≡ some (clock + duration))
  ban_ip-lost s i x ip expired now duration clock on at listed over =
      let held = after_block X D s i x ip in
      (
        later (later (later here (block i x ip on at refl)) (tick now refl))
            (insert i ip duration clock (ground arith) refl),
        ground (arith, listed, over, blocked-sweep X D laws held.manager now ip),
        D.get-insert_self (sweep X D held.manager now).banned_ips ip (clock + duration),
      )
