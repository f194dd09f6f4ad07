-- ===== src/Proxy/BanManager/Retry.antt =====
-- A ban whose address the kernel's map of linux.rs does not have: `remove` fails on it at every tick.
use vortex_proxy.Prelude.{
  ℕ, true, false, some, Option, Bool-cases, inl, inr, List, [], ◌∷◌, ◌≡◌, ◌∙◌, sym, subst, refl,
  arith, leb, ◌==◌,
}
use vortex_proxy.Net.{IpAddr, v4, v6, IpAddr-discrete}
use vortex_proxy.DashMap.{DashMap}
use vortex_proxy.DashMap.Entries.{find, retain_entries}
use vortex_proxy.Ebpf.{Outcome, done, failed}
use vortex_proxy.Ebpf.Linux.{
  LinuxXdpLimiter, linux, from_be_bytes, has_key, delete_key, unblock_ip, is_ip_blocked,
}
use vortex_proxy.Proxy.BanManager.{BanManager, kept, expire, sweep, sweep_all}

has_key-delete_key :
    (l : List ℕ) (j k : ℕ) → has_key l k ≡ false → has_key (delete_key l j) k ≡ false
unfolding has_key delete_key
has_key-delete_key [] j k h = refl
has_key-delete_key (i ∷ l) j k h = elim (Bool-cases (i == k)) [
  | inl e ↦ absurd (ground (arith, e, h))
  | inr e ↦ elim (Bool-cases (i == j)) [
    | inl same ↦ ground (arith, e, h, same, has_key-delete_key l j k)
    | inr other ↦ ground (arith, e, h, other, has_key-delete_key l j k)
  ]
]

-- Unblocking an address does not block another.
is_ip_blocked-unblock_ip :
    (x : LinuxXdpLimiter) (ip q : IpAddr)
    → is_ip_blocked x q ≡ false
    → is_ip_blocked (unblock_ip x ip).0 q ≡ false
unfolding is_ip_blocked unblock_ip
is_ip_blocked-unblock_ip x ip (v6 bits) h = refl
is_ip_blocked-unblock_ip x (v6 bits) (v4 a b c d) h = h
is_ip_blocked-unblock_ip x (v4 i j k l) (v4 a b c d) h =
    ground
      (arith, h, has_key-delete_key x.blocked_ips (from_be_bytes i j k l) (from_be_bytes a b c d))

kept-some : (r : LinuxXdpLimiter × Outcome) → (kept linux r).1 ≡ some r.0
kept-some (x, done) = refl
kept-some (x, failed) = refl

module _ (now a b c d : ℕ) where
  -- There is a limiter, and it does not block the address.
  IsAway : Option LinuxXdpLimiter → Type 0
  IsAway limiter =
      (x : LinuxXdpLimiter) × (limiter ≡ some x) × (is_ip_blocked x (v4 a b c d) ≡ false)

  expire-IsAway :
      (ip : IpAddr) (expiration : ℕ) (limiter : Option LinuxXdpLimiter)
      → IsAway limiter
      → IsAway (expire linux now ip expiration limiter).1
  unfolding IsAway expire linux
  expire-IsAway ip expiration limiter (x, e, h) = elim (Bool-cases (leb expiration now)) [
    | inl over ↦ (
      (unblock_ip x ip).0,
      ground (arith, e, over, kept-some (unblock_ip x ip)),
      is_ip_blocked-unblock_ip x ip (v4 a b c d) h,
    )
    | inr waits ↦ (x, ground (arith, e, waits), h)
  ]

  -- The entry of the address stays.
  expire-stuck :
      (expiration : ℕ) (limiter : Option LinuxXdpLimiter)
      → IsAway limiter
      → (expire linux now (v4 a b c d) expiration limiter).0 ≡ true
  unfolding IsAway expire linux unblock_ip is_ip_blocked
  expire-stuck expiration limiter (x, e, h) = ground (arith, e, h)

  find-stuck :
      (l : List (IpAddr × ℕ)) (limiter : Option LinuxXdpLimiter) {expiration : ℕ}
      → IsAway limiter
      → find IpAddr-discrete (v4 a b c d) l ≡ some expiration
      → find IpAddr-discrete (v4 a b c d) (retain_entries (expire linux now) l limiter).0
        ≡ some expiration
  find-stuck [] limiter away h = cc
  find-stuck ((ip, at) ∷ l) limiter {expiration = expiration} away h =
      elim (IpAddr-discrete ip (v4 a b c d)) [
        | yes same ↦
            let stays =
              subst (λ p. (expire linux now p at limiter).0 ≡ true) (sym same)
                (expire-stuck at limiter away) in
            ground (arith, same, stays, h)
        | no other ↦
            let rest =
              find-stuck l (expire linux now ip at limiter).1 {expiration = expiration}
                (expire-IsAway ip at limiter away) in
            ground (arith, other, h, rest)
      ]

  retain-IsAway :
      (l : List (IpAddr × ℕ)) (limiter : Option LinuxXdpLimiter)
      → IsAway limiter
      → IsAway (retain_entries (expire linux now) l limiter).1
  retain-IsAway [] limiter away = away
  retain-IsAway ((ip, at) ∷ l) limiter away =
      retain-IsAway l (expire linux now ip at limiter).1 (expire-IsAway ip at limiter away)

module _ (D : DashMap IpAddr ℕ IpAddr-discrete) (a b c d : ℕ) where
  sweep-IsAway :
      (m : BanManager linux D) (x : LinuxXdpLimiter) (now : ℕ)
      → m.limiter ≡ some x
      → is_ip_blocked x (v4 a b c d) ≡ false
      → IsAway now a b c d (sweep linux D m now).limiter
  unfolding sweep
  sweep-IsAway m x now e h =
      rw D.state-retain
        (retain-IsAway now a b c d (D.entries m.banned_ips) m.limiter (unfold IsAway in (x, e, h)))

  get-stuck :
      (m : BanManager linux D) (x : LinuxXdpLimiter) (now expiration : ℕ)
      → m.limiter ≡ some x
      → is_ip_blocked x (v4 a b c d) ≡ false
      → D.get m.banned_ips (v4 a b c d) ≡ some expiration
      → D.get (sweep linux D m now).banned_ips (v4 a b c d) ≡ some expiration
  unfolding sweep
  get-stuck m x now expiration e h found =
      rw (D.get-entries, D.entries-retain)
        (find-stuck now a b c d (D.entries m.banned_ips) m.limiter (unfold IsAway in (x, e, h))
          (sym (D.get-entries m.banned_ips (v4 a b c d)) ∙ found))

  -- On the limiter of linux.rs, a ban of an IPv4 address that the limiter does not block stays in the
  -- map for good: whatever other bans there are, and however many ticks of the sweeper come after its
  -- instant, it has the instant that it had.
  pub sweep_all-stuck :
      (m : BanManager linux D) (x : LinuxXdpLimiter) (expiration : ℕ) (ticks : List ℕ)
      → m.limiter ≡ some x
      → is_ip_blocked x (v4 a b c d) ≡ false
      → D.get m.banned_ips (v4 a b c d) ≡ some expiration
      → D.get (sweep_all linux D m ticks).banned_ips (v4 a b c d) ≡ some expiration
  unfolding sweep_all IsAway
  sweep_all-stuck m x expiration [] e h found = found
  sweep_all-stuck m x expiration (now ∷ ticks) e h found =
      let (x', e', h') = sweep-IsAway m x now e h in
      sweep_all-stuck (sweep linux D m now) x' expiration ticks e' h'
        (get-stuck m x now expiration e h found)
