-- ===== src/Ebpf/Tests.antt =====
-- The unit test of mock.rs, the limiter of linux.rs beside the packet filter, and the theorems at
-- concrete packets.
use vortex_proxy.Prelude.{ℕ, ℕ_discrete, ◌≡◌, refl, arith, List, [], ◌∷◌, ◌++◌, true, false, ◌↔◌}
use vortex_proxy.Net.{IpAddr, v4, IpAddr-discrete}
use vortex_proxy.Ebpf.Mock
use vortex_proxy.Ebpf.Linux.{LinuxXdpLimiter, block_ip, is_ip_blocked, from_be_bytes, has_key}
use vortex_proxy.Ebpf.Packet.{
  xdp_prog, xdp_drop, xdp_pass, xdp_prog-block_ip, IsFrom, src_ip, h_proto,
}

program : Unit {0}
unfolding Mock.new Mock.block_ip Mock.unblock_ip Mock.is_ip_blocked Mock.blocked_ip_count
    Mock.contains Mock.delete ℕ_discrete IpAddr-discrete block_ip is_ip_blocked from_be_bytes
    has_key xdp_prog src_ip h_proto
program = tt

abbrev octet : ℕ → ℕ
octet n = n

abbrev home : IpAddr
home = v4 192 168 1 100

mock_lifecycle :
    (Mock.is_ip_blocked Mock.new home ≡ false)
    × (Mock.is_ip_blocked (Mock.block_ip Mock.new home).0 home ≡ true)
    × (Mock.blocked_ip_count (Mock.block_ip Mock.new home).0 ≡ 1)
    × (Mock.is_ip_blocked (Mock.unblock_ip (Mock.block_ip Mock.new home).0 home).0 home ≡ false)
unfolding program
mock_lifecycle = (refl, refl, refl, refl)

abbrev attached : LinuxXdpLimiter
attached = record { blocked_ips = []; map_ok = true; insert_ok = true }

-- An Ethernet and an IP header with a source address.
abbrev packet_from : ℕ → ℕ → ℕ → ℕ → List ℕ
packet_from a b c d =
    (2 ∷ 0 ∷ 0 ∷ 0 ∷ 0 ∷ 1 ∷ 2 ∷ 0 ∷ 0 ∷ 0 ∷ 0 ∷ 2 ∷ 8 ∷ 0 ∷ [])
    ++ (69 ∷ 0 ∷ 0 ∷ 20 ∷ 0 ∷ 0 ∷ 0 ∷ 0 ∷ 64 ∷ 6 ∷ 0 ∷ 0 ∷ [])
    ++ (a ∷ b ∷ c ∷ d ∷ 10 ∷ 0 ∷ 0 ∷ 1 ∷ [])

-- A blocked address reaches the server, and the one with its octets reversed is dropped.
reversed_is_dropped :
    (xdp_prog (block_ip attached home).0.blocked_ips (packet_from 192 168 1 100) ≡ xdp_pass)
    × (xdp_prog (block_ip attached home).0.blocked_ips (packet_from 100 1 168 192) ≡ xdp_drop)
unfolding program
reversed_is_dropped = (refl, refl)

home-IsFrom : IsFrom (packet_from 192 168 1 100) 192 168 1 100
home-IsFrom = record {
  long = omega arith;
  proto_high = refl;
  proto_low = refl;
  first = refl;
  second = refl;
  third = refl;
  fourth = refl;
}

xdp_prog-block_ip_example :
    (xdp_prog (block_ip attached home).0.blocked_ips (packet_from 192 168 1 100) ≡ xdp_drop)
    ↔ ((octet 192 ≡ 100) × (octet 168 ≡ 1))
xdp_prog-block_ip_example =
    xdp_prog-block_ip 192 168 1 100 attached (packet_from 192 168 1 100) (omega arith) (omega arith)
      (omega arith) (omega arith) refl refl refl home-IsFrom
