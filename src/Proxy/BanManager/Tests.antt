-- ===== src/Proxy/BanManager/Tests.antt =====
-- The unit test of ban_manager.rs, and the theorems at a concrete manager.
use vortex_proxy.Prelude.{ℕ, arith, ◌≡◌, refl, [], ◌∷◌, true, false, ◌+◌, some, ltb, ℕ_discrete}
use vortex_proxy.Net.{IpAddr, v4, IpAddr-discrete}
use vortex_proxy.DashMap.{DashMap}
use vortex_proxy.DashMap.Assoc.{assoc}
use vortex_proxy.Ebpf.Linux.{linux, has_key, is_ip_blocked}
use vortex_proxy.Ebpf.Mock
use vortex_proxy.Ebpf.Mock.{MockXdpLimiter, mock, mock-IsLawful}
use vortex_proxy.Proxy.BanManager.{
  BanManager, new, note_ban, ban_ip, is_blocked, is_ip_banned, expire, sweep, sweep_all,
  spawn_sweeper,
}
use vortex_proxy.Proxy.BanManager.Lifecycle.{
  ban, tick, handle_all, IsAgreed, handle_all-IsAgreed, is_ip_banned-ban_ip,
}
use vortex_proxy.Proxy.BanManager.Retry.{sweep_all-stuck}
use vortex_proxy.Proxy.BanManager.Concurrent.{
  System, idle, Reach, here, later, block, IsKnown, after_block, swept_between, Reach-IsKnown,
  ban_ip-lost,
}

abbrev map : DashMap IpAddr ℕ IpAddr-discrete
map = assoc IpAddr-discrete

program : Unit {0}
unfolding assoc IpAddr-discrete ℕ_discrete mock Mock.new Mock.contains Mock.delete Mock.block_ip
    Mock.unblock_ip Mock.is_ip_blocked new note_ban ban_ip is_blocked is_ip_banned expire sweep
    sweep_all spawn_sweeper IsAgreed
program = tt

abbrev target : IpAddr
target = v4 203 0 113 42

abbrev fresh : BanManager mock map
fresh = new mock map (some Mock.new)

abbrev banned : BanManager mock map
banned = ban_ip mock map fresh target 100 1000

-- Before the ban, during it, and before and after the tick that ends it.
lifecycle :
    (is_ip_banned mock map fresh target 1000 ≡ false)
    × (is_ip_banned mock map banned target 1050 ≡ true)
    × (is_ip_banned mock map (spawn_sweeper mock map banned (1020 ∷ 1040 ∷ [])) target 1110 ≡ true)
    × (is_ip_banned mock map (spawn_sweeper mock map banned (1020 ∷ 1100 ∷ [])) target 1110 ≡ false)
unfolding program
lifecycle = (refl, refl, refl, refl)

fresh-IsAgreed : IsAgreed mock map fresh
unfolding program
fresh-IsAgreed q = refl

handle_all-IsAgreed_example :
    IsAgreed mock map (handle_all mock map fresh (ban target 100 1000 ∷ tick 1020 ∷ tick 1200 ∷ []))
handle_all-IsAgreed_example =
    handle_all-IsAgreed mock map mock-IsLawful fresh
      (ban target 100 1000 ∷ tick 1020 ∷ tick 1200 ∷ []) fresh-IsAgreed

is_ip_banned-ban_ip_example :
    (is_ip_banned mock map (ban_ip mock map fresh target 100 1000) target 1100 ≡ true)
    × (is_ip_banned mock map
          (sweep mock map (ban_ip mock map fresh target 100 1000) 1100)
          target
          1100
        ≡ ltb 1100 (1000 + 100))
unfolding new
is_ip_banned-ban_ip_example =
    is_ip_banned-ban_ip mock map mock-IsLawful fresh Mock.new target 100 1000 1100 fresh-IsAgreed
      refl

-- The ban of an address that the kernel does not block.
abbrev stuck : BanManager linux map
stuck = record {
  limiter = some (record { blocked_ips = []; map_ok = true; insert_ok = true });
  banned_ips = map.insert map.empty (v4 10 0 0 7) 1100;
}

sweep_all-stuck_example :
    map.get (sweep_all linux map stuck (1200 ∷ 1300 ∷ [])).banned_ips (v4 10 0 0 7) ≡ some 1100
unfolding program has_key is_ip_blocked
sweep_all-stuck_example =
    sweep_all-stuck map 10 0 0 7 stuck
      (record { blocked_ips = []; map_ok = true; insert_ok = true }) 1100 (1200 ∷ 1300 ∷ []) refl
      refl refl

abbrev calm : System mock map
calm = record { manager = fresh; pc = λ _. idle }

fresh-unblocked :
    (q : IpAddr) → is_blocked mock calm.manager.limiter q ≡ true → IsKnown mock map calm q
unfolding program
fresh-unblocked q h = absurd (ground (arith, h))

-- Thread 3 has blocked the address and not yet inserted it.
abbrev banning : System mock map
banning = after_block mock map calm 3 Mock.new target

banning-Reach : Reach mock map calm banning
unfolding new
banning-Reach = later here (block 3 Mock.new target refl refl refl)

Reach-IsKnown_example : IsKnown mock map banning target
unfolding program
Reach-IsKnown_example =
    Reach-IsKnown mock map mock-IsLawful calm banning-Reach fresh-unblocked target refl

-- The old ban has run out at 1100 and has not been swept.
abbrev run_out : System mock map
run_out = record { manager = banned; pc = λ _. idle }

abbrev banned_once : MockXdpLimiter
banned_once = record { blocked_ips = target ∷ [] }

ban_ip-lost_example :
    Reach mock map run_out (swept_between mock map run_out 3 banned_once target 1200 1500)
    × (is_blocked mock
          (swept_between mock map run_out 3 banned_once target 1200 1500).manager.limiter
          target
        ≡ false)
    × (map.get
          (swept_between mock map run_out 3 banned_once target 1200 1500).manager.banned_ips
          target
        ≡ some 1500)
unfolding program
ban_ip-lost_example =
    ban_ip-lost mock map mock-IsLawful run_out 3 banned_once target 1100 1200 300 1200 refl refl
      refl (omega arith)
