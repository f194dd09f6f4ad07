-- ===== src/Proxy/BanManager/Lifecycle.antt =====
-- Bans and sweeps in any order, on a lawful limiter.
use mathlib.Core.Logic.{ite}
use vortex_proxy.Prelude.{
  ℕ, Bool, true, false, Option, none, some, Option-cases, inl, inr, List, [], ◌∷◌, ◌≡◌, sym, arith,
  ltb, if◌then◌else◌, ◌+◌, subst,
}
use vortex_proxy.Net.{IpAddr, IpAddr-discrete}
use vortex_proxy.DashMap.{DashMap}
use vortex_proxy.Ebpf.{XdpRateLimiter, IsLawful}
use vortex_proxy.Proxy.BanManager.{BanManager, note_ban, ban_ip, is_blocked, is_ip_banned, sweep}
use vortex_proxy.Proxy.BanManager.Expiry.{unexpired, is_expired, find-retain, blocked-retain}

-- What can happen to the manager, with the clock at the time.
pub data Event : Type 0 where
  ban : IpAddr → ℕ → ℕ → Event
  tick : ℕ → Event

abbrev pub is_some : Option ℕ → Bool
is_some none = false
is_some (some _) = true

module _ {S : Type 0} (X : XdpRateLimiter S) (D : DashMap IpAddr ℕ IpAddr-discrete) where
  unfoldable pub handle : BanManager X D → Event → BanManager X D
  handle m (ban ip duration now) = ban_ip X D m ip duration now
  handle m (tick now) = sweep X D m now

  unfoldable pub handle_all : BanManager X D → List Event → BanManager X D
  handle_all m [] = m
  handle_all m (e ∷ events) = handle_all (handle m e) events

  -- The limiter blocks the addresses of the map and no others.
  unfoldable pub IsAgreed : BanManager X D → Type 0
  IsAgreed m = (q : IpAddr) → is_blocked X m.limiter q ≡ is_some (D.get m.banned_ips q)

module _ {S : Type 0} (X : XdpRateLimiter S) (D : DashMap IpAddr ℕ IpAddr-discrete)
    (laws : IsLawful X) where
  pub get-sweep :
      (m : BanManager X D) (now : ℕ) (q : IpAddr)
      → D.get (sweep X D m now).banned_ips q ≡ unexpired now (D.get m.banned_ips q)
  unfolding sweep
  get-sweep m now q =
      rw (D.get-entries, D.get-entries m.banned_ips q, D.entries-retain)
        (find-retain X laws now q (D.entries m.banned_ips) m.limiter (D.distinct m.banned_ips))

  pub blocked-sweep :
      (m : BanManager X D) (now : ℕ) (q : IpAddr)
      → is_blocked X (sweep X D m now).limiter q
        ≡ (if is_expired now (D.get m.banned_ips q) then false else is_blocked X m.limiter q)
  unfolding sweep
  blocked-sweep m now q =
      rw (D.get-entries, D.state-retain)
        (blocked-retain X laws now q (D.entries m.banned_ips) m.limiter (D.distinct m.banned_ips))

  pub sweep-IsAgreed :
      (m : BanManager X D) (now : ℕ) → IsAgreed X D m → IsAgreed X D (sweep X D m now)
  unfolding IsAgreed
  sweep-IsAgreed m now h q = ground (arith, get-sweep m now q, blocked-sweep m now q, h q)

  -- With a lawful limiter a ban is always noted.
  ban_ip-some :
      (m : BanManager X D) (s : S) (ip : IpAddr) (duration now : ℕ)
      → m.limiter ≡ some s
      → ban_ip X D m ip duration now ≡ record {
        limiter = some (X.block_ip s ip).0;
        banned_ips = D.insert m.banned_ips ip (now + duration);
      }
  unfolding ban_ip note_ban
  ban_ip-some m s ip duration now e = ground (arith, e, laws.block_done s ip)

  pub get-insert :
      (b : D.Map) (ip q : IpAddr) (expiration : ℕ)
      → D.get (D.insert b ip expiration) q
        ≡ ite (IpAddr-discrete ip q) (some expiration) (D.get b q)
  get-insert b ip q expiration =
      ground (arith, D.get-insert_self b ip expiration, D.get-insert_ne b ip q expiration)

  get-ban_ip :
      (m : BanManager X D) (s : S) (ip q : IpAddr) (duration now : ℕ)
      → m.limiter ≡ some s
      → D.get (ban_ip X D m ip duration now).banned_ips q
        ≡ ite (IpAddr-discrete ip q) (some (now + duration)) (D.get m.banned_ips q)
  get-ban_ip m s ip q duration now e =
      rw (ban_ip-some m s ip duration now e) (get-insert m.banned_ips ip q (now + duration))

  blocked-ban_ip :
      (m : BanManager X D) (s : S) (ip q : IpAddr) (duration now : ℕ)
      → m.limiter ≡ some s
      → is_blocked X (ban_ip X D m ip duration now).limiter q
        ≡ ite (IpAddr-discrete ip q) true (is_blocked X m.limiter q)
  unfolding is_blocked
  blocked-ban_ip m s ip q duration now e =
      rw (ban_ip-some m s ip duration now e, e) (laws.blocked-block s ip q)

  ban_ip-none :
      (m : BanManager X D) (ip : IpAddr) (duration now : ℕ)
      → m.limiter ≡ none
      → ban_ip X D m ip duration now ≡ m
  unfolding ban_ip
  ban_ip-none m ip duration now e = ground (arith, e)

  pub ban_ip-IsAgreed :
      (m : BanManager X D) (ip : IpAddr) (duration now : ℕ)
      → IsAgreed X D m
      → IsAgreed X D (ban_ip X D m ip duration now)
  unfolding IsAgreed
  ban_ip-IsAgreed m ip duration now h q = elim (Option-cases m.limiter) [
    | inl e ↦
        subst (λ m'. is_blocked X m'.limiter q ≡ is_some (D.get m'.banned_ips q))
          (sym (ban_ip-none m ip duration now e)) (h q)
    | inr (s, e) ↦
        ground
          (arith, h q, get-ban_ip m s ip q duration now e, blocked-ban_ip m s ip q duration now e)
  ]

  handle-IsAgreed :
      (m : BanManager X D) (e : Event) → IsAgreed X D m → IsAgreed X D (handle X D m e)
  unfolding handle
  handle-IsAgreed m (ban ip duration now) h = ban_ip-IsAgreed m ip duration now h
  handle-IsAgreed m (tick now) h = sweep-IsAgreed m now h

  -- With a lawful limiter, whatever bans and sweeps happen and in whatever order, the limiter blocks an
  -- address exactly if the map has an expiration for it, provided this was so before.
  pub handle_all-IsAgreed :
      (m : BanManager X D) (events : List Event)
      → IsAgreed X D m
      → IsAgreed X D (handle_all X D m events)
  unfolding handle_all
  handle_all-IsAgreed m [] h = h
  handle_all-IsAgreed m (e ∷ events) h =
      handle_all-IsAgreed (handle X D m e) events (handle-IsAgreed m e h)

  -- With a lawful limiter that blocks what the map has: a ban holds at whatever instant it is asked for,
  -- also after its duration, until a sweep; a sweep at an instant before the end of the ban leaves it,
  -- and one at the end or later lifts it.
  pub is_ip_banned-ban_ip :
      (m : BanManager X D) (s : S) (ip : IpAddr) (duration now later : ℕ)
      → IsAgreed X D m
      → m.limiter ≡ some s
      → (is_ip_banned X D (ban_ip X D m ip duration now) ip later ≡ true)
        × (is_ip_banned X D (sweep X D (ban_ip X D m ip duration now) later) ip later
            ≡ ltb later (now + duration))
  unfolding is_ip_banned IsAgreed
  is_ip_banned-ban_ip m s ip duration now later h e =
      let m' = ban_ip X D m ip duration now in
      ground (
        arith,
        get-ban_ip m s ip ip duration now e,
        blocked-ban_ip m s ip ip duration now e,
        get-sweep m' later ip,
        blocked-sweep m' later ip,
      )
