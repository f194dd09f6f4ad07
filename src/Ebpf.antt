-- ===== src/Ebpf.antt =====
-- The crate vortex-ebpf: the trait of vortex-ebpf/src/lib.rs, its two implementations, and the packet
-- filter in bpf/xdp_drop.c that the Linux one loads.
pub mod Mock
pub mod Linux
pub mod Load
pub mod Packet
mod Tests
use mathlib.Core.Logic.{ite}
use vortex_proxy.Prelude.{ℕ, Bool, true, false, ◌≡◌}
use vortex_proxy.Net.{IpAddr, IpAddr-discrete}

-- `Result<(), Box<dyn Error>>`; the error is only ever logged.
pub data Outcome : Type 0 where
  done failed : Outcome

-- The trait `XdpRateLimiter`, for a limiter whose state is an `S`.
pub record XdpRateLimiter (S : Type 0) : Type 0 where
  pub block_ip : S → IpAddr → S × Outcome
  pub unblock_ip : S → IpAddr → S × Outcome
  pub is_ip_blocked : S → IpAddr → Bool
  pub blocked_ip_count : S → ℕ

-- A limiter that never fails, and that blocks the addresses that were blocked last and not unblocked
-- since.
pub record IsLawful {S : Type 0} (limiter : XdpRateLimiter S) : Type 0 where
  pub block_done : (s : S) (ip : IpAddr) → (limiter.block_ip s ip).1 ≡ done
  pub unblock_done : (s : S) (ip : IpAddr) → (limiter.unblock_ip s ip).1 ≡ done
  pub blocked-block :
      (s : S) (ip q : IpAddr)
      → limiter.is_ip_blocked (limiter.block_ip s ip).0 q
        ≡ ite (IpAddr-discrete ip q) true (limiter.is_ip_blocked s q)
  pub blocked-unblock :
      (s : S) (ip q : IpAddr)
      → limiter.is_ip_blocked (limiter.unblock_ip s ip).0 q
        ≡ ite (IpAddr-discrete ip q) false (limiter.is_ip_blocked s q)
