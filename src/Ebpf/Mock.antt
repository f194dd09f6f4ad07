-- ===== src/Ebpf/Mock.antt =====
-- vortex-ebpf/src/mock.rs. The set is a list of addresses without repetition.
use vortex_proxy.Prelude.{
  ℕ, Bool, true, false, List, [], ◌∷◌, length, ◌≡◌, refl, arith, if◌then◌else◌,
}
use mathlib.Core.Logic.{ite}
use vortex_proxy.Net.{IpAddr, IpAddr-discrete}
use vortex_proxy.Ebpf.{Outcome, done, XdpRateLimiter, IsLawful}

pub record MockXdpLimiter : Type 0 where
  pub blocked_ips : List IpAddr

unfoldable pub new : MockXdpLimiter
new = record { blocked_ips = [] }

-- `HashSet::contains`
unfoldable pub contains : List IpAddr → IpAddr → Bool
contains [] ip = false
contains (a ∷ l) ip = ite (IpAddr-discrete a ip) true (contains l ip)

-- `HashSet::remove`
unfoldable pub delete : List IpAddr → IpAddr → List IpAddr
delete [] ip = []
delete (a ∷ l) ip = ite (IpAddr-discrete a ip) (delete l ip) (a ∷ delete l ip)

unfoldable pub block_ip : MockXdpLimiter → IpAddr → MockXdpLimiter × Outcome
unfolding contains
block_ip m ip = (
  record { blocked_ips = if contains m.blocked_ips ip then m.blocked_ips else ip ∷ m.blocked_ips },
  done,
)

unfoldable pub unblock_ip : MockXdpLimiter → IpAddr → MockXdpLimiter × Outcome
unfolding delete
unblock_ip m ip = (record { blocked_ips = delete m.blocked_ips ip }, done)

unfoldable pub is_ip_blocked : MockXdpLimiter → IpAddr → Bool
unfolding contains
is_ip_blocked m ip = contains m.blocked_ips ip

unfoldable pub blocked_ip_count : MockXdpLimiter → ℕ
blocked_ip_count m = length m.blocked_ips

unfoldable pub mock : XdpRateLimiter MockXdpLimiter
mock = record {
  block_ip = block_ip;
  unblock_ip = unblock_ip;
  is_ip_blocked = is_ip_blocked;
  blocked_ip_count = blocked_ip_count;
}

contains-delete :
    (l : List IpAddr) (ip q : IpAddr)
    → contains (delete l ip) q ≡ ite (IpAddr-discrete ip q) false (contains l q)
unfolding contains delete
contains-delete [] ip q = ground arith
contains-delete (a ∷ l) ip q = ground (arith, contains-delete l ip q)

-- The mock limiter never fails; it blocks an address after `block_ip` on it, no longer after
-- `unblock_ip` on it, and neither call changes what it says of another address.
pub mock-IsLawful : IsLawful mock
unfolding mock is_ip_blocked block_ip unblock_ip contains
mock-IsLawful = record {
  block_done = λ m ip. refl;
  unblock_done = λ m ip. refl;
  blocked-block = λ m ip q. ground arith;
  blocked-unblock = λ m ip q. contains-delete m.blocked_ips ip q;
}
