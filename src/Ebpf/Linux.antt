-- ===== src/Ebpf/Linux.antt =====
-- vortex-ebpf/src/linux.rs. The program on the interface and the `aya` library are not modelled: the
-- kernel's map is a list of keys, an argument of the functions. `map_ok` says whether `aya` hands out
-- the map, `insert_ok` whether the kernel takes an insertion (the map has 100,000 places).
use vortex_proxy.Prelude.{
  ℕ, Bool, true, false, List, [], ◌∷◌, length, ◌≡◌, refl, arith, ◌+◌, ◌*◌, ◌^◌, if◌then◌else◌, ◌&&◌,
  ◌==◌,
}
use vortex_proxy.Net.{IpAddr, v4, v6}
use vortex_proxy.Ebpf.{Outcome, done, failed, XdpRateLimiter}

-- The state of the kernel's BLOCKED_IPS: its keys and, as the environment chooses, whether the next
-- calls succeed.
pub record LinuxXdpLimiter : Type 0 where
  pub blocked_ips : List ℕ
  pub map_ok : Bool
  pub insert_ok : Bool

-- `u32::from_be_bytes(ipv4.octets())`
unfoldable pub from_be_bytes : ℕ → ℕ → ℕ → ℕ → ℕ
from_be_bytes a b c d = a * 2 ^ 24 + b * 2 ^ 16 + c * 2 ^ 8 + d

unfoldable pub has_key : List ℕ → ℕ → Bool
has_key [] k = false
has_key (j ∷ l) k = if j == k then true else has_key l k

unfoldable pub delete_key : List ℕ → ℕ → List ℕ
delete_key [] k = []
delete_key (j ∷ l) k = if j == k then delete_key l k else j ∷ delete_key l k

unfoldable pub block_ip : LinuxXdpLimiter → IpAddr → LinuxXdpLimiter × Outcome
unfolding from_be_bytes has_key
block_ip x (v4 a b c d) =
    let key = from_be_bytes a b c d in
    if x.map_ok && x.insert_ok
    then (
      record x {
        blocked_ips = if has_key x.blocked_ips key then x.blocked_ips else key ∷ x.blocked_ips;
      },
      done,
    )
    else (x, failed)
block_ip x (v6 _) = (x, done)

-- `remove` fails on a key that is not there.
unfoldable pub unblock_ip : LinuxXdpLimiter → IpAddr → LinuxXdpLimiter × Outcome
unfolding from_be_bytes has_key delete_key
unblock_ip x (v4 a b c d) =
    let key = from_be_bytes a b c d in
    if x.map_ok && has_key x.blocked_ips key
    then (record x { blocked_ips = delete_key x.blocked_ips key }, done)
    else (x, failed)
unblock_ip x (v6 _) = (x, done)

unfoldable pub is_ip_blocked : LinuxXdpLimiter → IpAddr → Bool
unfolding from_be_bytes has_key
is_ip_blocked x (v4 a b c d) = x.map_ok && has_key x.blocked_ips (from_be_bytes a b c d)
is_ip_blocked x (v6 _) = false

unfoldable pub blocked_ip_count : LinuxXdpLimiter → ℕ
blocked_ip_count x = if x.map_ok then length x.blocked_ips else 0

unfoldable pub linux : XdpRateLimiter LinuxXdpLimiter
linux = record {
  block_ip = block_ip;
  unblock_ip = unblock_ip;
  is_ip_blocked = is_ip_blocked;
  blocked_ip_count = blocked_ip_count;
}

abbrev pub is_v4 : IpAddr → Bool
is_v4 (v4 _ _ _ _) = true
is_v4 (v6 _) = false

-- A call of `block_ip` that reports success has blocked the address if it is an IPv4 address, and has
-- not if it is an IPv6 address.
pub block_ip-done :
    (x : LinuxXdpLimiter) (ip : IpAddr)
    → (block_ip x ip).1 ≡ done
    → is_ip_blocked (block_ip x ip).0 ip ≡ is_v4 ip
unfolding block_ip is_ip_blocked has_key
block_ip-done x (v4 a b c d) h = ground (arith, h)
block_ip-done x (v6 bits) h = refl
