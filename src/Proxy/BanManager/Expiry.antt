-- ===== src/Proxy/BanManager/Expiry.antt =====
-- What the closure of `retain` does over all entries, for a lawful limiter.
use mathlib.Core.Logic.{ite}
use vortex_proxy.Prelude.{
  ℕ, Bool, false, Option, none, some, List, [], ◌∷◌, ◌≡◌, refl, arith, ltb, leb, if◌then◌else◌,
}
use vortex_proxy.Net.{IpAddr, IpAddr-discrete}
use vortex_proxy.DashMap.Entries.{IsDistinct, find, find-Lacks, retain_entries}
use vortex_proxy.Ebpf.{XdpRateLimiter, IsLawful}
use vortex_proxy.Proxy.BanManager.{is_blocked, expire}

-- An entry until its instant, and no entry from then on.
abbrev pub unexpired : ℕ → Option ℕ → Option ℕ
unexpired now none = none
unexpired now (some expiration) = if leb expiration now then none else some expiration

abbrev pub is_expired : ℕ → Option ℕ → Bool
is_expired now none = false
is_expired now (some expiration) = leb expiration now

module _ {S : Type 0} (X : XdpRateLimiter S) (laws : IsLawful X) (now : ℕ) where
  -- The closure drops the entries that have expired, and no others.
  expire-keeps :
      (ip : IpAddr) (expiration : ℕ) (limiter : Option S)
      → (expire X now ip expiration limiter).0 ≡ ltb now expiration
  unfolding expire
  expire-keeps ip expiration none = ground arith
  expire-keeps ip expiration (some s) = ground (arith, laws.unblock_done s ip)

  -- It leaves the limiter without a block of the entry's address, if the entry has expired.
  expire-blocks :
      (ip q : IpAddr) (expiration : ℕ) (limiter : Option S)
      → is_blocked X (expire X now ip expiration limiter).1 q ≡ (
          if leb expiration now
          then ite (IpAddr-discrete ip q) false (is_blocked X limiter q)
          else is_blocked X limiter q)
  unfolding expire is_blocked
  expire-blocks ip q expiration none = ground arith
  expire-blocks ip q expiration (some s) =
      ground (arith, laws.unblock_done s ip, laws.blocked-unblock s ip q)

  -- After the closure has seen every entry, the ones that have not expired are left.
  pub find-retain :
      (q : IpAddr) (l : List (IpAddr × ℕ)) (limiter : Option S)
      → IsDistinct l
      → find IpAddr-discrete q (retain_entries (expire X now) l limiter).0
        ≡ unexpired now (find IpAddr-discrete q l)
  find-retain q [] limiter d = refl
  find-retain q ((ip, e) ∷ l) limiter (lacks, d) =
      let rest = find-retain q l (expire X now ip e limiter).1 d in
      ground (arith, rest, expire-keeps ip e limiter, find-Lacks IpAddr-discrete ip l lacks)

  -- And the limiter blocks the addresses that it blocked, less those of the expired entries.
  pub blocked-retain :
      (q : IpAddr) (l : List (IpAddr × ℕ)) (limiter : Option S)
      → IsDistinct l
      → is_blocked X (retain_entries (expire X now) l limiter).1 q
        ≡ (if is_expired now (find IpAddr-discrete q l) then false else is_blocked X limiter q)
  blocked-retain q [] limiter d = refl
  blocked-retain q ((ip, e) ∷ l) limiter (lacks, d) =
      let rest = blocked-retain q l (expire X now ip e limiter).1 d in
      ground (arith, rest, expire-blocks ip q e limiter, find-Lacks IpAddr-discrete ip l lacks)
