-- ===== src/Proxy/BanManager.antt =====
-- vortex-proxy/src/ban_manager.rs. The limiter behind the `Arc` is its state; `banned_ips` is a map of
-- the interface DashMap; an `Instant` is a number and the clock an argument. `Instant + Duration` panics
-- where the sum does not fit the clock's 64 bits of seconds: the model has no bound there.
pub mod Expiry
pub mod Lifecycle
pub mod Retry
pub mod Concurrent
mod Tests
use vortex_proxy.Prelude.{
  ℕ, Bool, true, false, Option, none, some, List, [], ◌∷◌, ◌+◌, ltb, leb, if◌then◌else◌,
}
use vortex_proxy.Net.{IpAddr, IpAddr-discrete}
use vortex_proxy.DashMap.{DashMap}
use vortex_proxy.Ebpf.{Outcome, done, failed, XdpRateLimiter}

pub record BanManager {S : Type 0} (X : XdpRateLimiter S) (D : DashMap IpAddr ℕ IpAddr-discrete)
    : Type 0 where
  pub limiter : Option S
  pub banned_ips : D.Map

-- Whether an entry of the map is still to come.
abbrev pub is_live : ℕ → Option ℕ → Bool
is_live now none = false
is_live now (some expiration) = ltb now expiration

module _ {S : Type 0} (X : XdpRateLimiter S) where
  unfoldable pub is_blocked : Option S → IpAddr → Bool
  is_blocked none ip = false
  is_blocked (some s) ip = X.is_ip_blocked s ip

  -- The closure of `retain`: whether the entry stays, and the limiter after it.
  abbrev pub kept : S × Outcome → Bool × Option S
  kept (s, failed) = (true, some s)
  kept (s, done) = (false, some s)

  abbrev pub unban : Option S → IpAddr → Bool × Option S
  unban none ip = (false, none)
  unban (some s) ip = kept (X.unblock_ip s ip)

  unfoldable pub expire : ℕ → IpAddr → ℕ → Option S → Bool × Option S
  expire now ip expiration limiter =
      if leb expiration now then unban limiter ip else (true, limiter)

module _ {S : Type 0} (X : XdpRateLimiter S) (D : DashMap IpAddr ℕ IpAddr-discrete) where
  unfoldable pub new : Option S → BanManager X D
  new limiter = record { limiter = limiter; banned_ips = D.empty }

  -- What `ban_ip` does with the outcome of `block_ip`; `expiration` is `Instant::now() + duration`.
  unfoldable pub note_ban : BanManager X D → IpAddr → ℕ → S × Outcome → BanManager X D
  note_ban m ip expiration (s, failed) = record m { limiter = some s }
  note_ban m ip expiration (s, done) = record m {
    limiter = some s;
    banned_ips = D.insert m.banned_ips ip expiration;
  }

  unfoldable pub ban_ip : BanManager X D → IpAddr → ℕ → ℕ → BanManager X D
  unfolding note_ban
  ban_ip m ip duration now = elim m.limiter [
    | none ↦ m
    | some s ↦ note_ban m ip (now + duration) (X.block_ip s ip)
  ]

  unfoldable pub is_ip_banned : BanManager X D → IpAddr → ℕ → Bool
  unfolding is_blocked
  is_ip_banned m ip now =
      if is_blocked X m.limiter ip then true else is_live now (D.get m.banned_ips ip)

  -- One tick of the sweeper.
  unfoldable pub sweep : BanManager X D → ℕ → BanManager X D
  unfolding expire
  sweep m now =
      let swept = D.retain (expire X now) m.banned_ips m.limiter in
      record { limiter = swept.1; banned_ips = swept.0 }

  -- The sweeper at the instants of its ticks. Without a limiter it does not run.
  unfoldable pub sweep_all : BanManager X D → List ℕ → BanManager X D
  sweep_all m [] = m
  sweep_all m (now ∷ ticks) = sweep_all (sweep m now) ticks

  unfoldable pub spawn_sweeper : BanManager X D → List ℕ → BanManager X D
  spawn_sweeper m ticks = elim m.limiter [ none ↦ m | some s ↦ sweep_all m ticks ]
