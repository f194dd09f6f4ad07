-- ===== src/Ebpf/Packet.antt =====
-- The filter of vortex-ebpf/bpf/xdp_drop.c on a packet given by its bytes, and what a key of
-- linux.rs means to it. The filter runs on a little-endian machine: a `__u32` read from the packet
-- has the first byte lowest, and `bpf_htons` swaps the bytes of the constant 0x0800.
use vortex_proxy.Prelude.{
  ℕ, zero, suc, true, List, [], ◌∷◌, length, ◌≡◌, sym, subst, arith, ◌+◌, ◌*◌, ◌<◌, ◌^◌,
  if◌then◌else◌, ◌==◌, ltb, ◌↔◌,
}
use vortex_proxy.Net.{v4}
use vortex_proxy.Ebpf.Linux.{LinuxXdpLimiter, has_key, block_ip, from_be_bytes}

pub data Verdict : Type 0 where
  xdp_pass xdp_drop : Verdict

abbrev pub byte_at : List ℕ → ℕ → ℕ
byte_at [] i = 0
byte_at (b ∷ l) zero = b
byte_at (b ∷ l) (suc i) = byte_at l i

-- An Ethernet header is 14 bytes with its protocol at 12; an IP header is 20 bytes with its source
-- address at 12.
unfoldable pub src_ip : List ℕ → ℕ
src_ip packet =
    byte_at packet 26
    + byte_at packet 27 * 2 ^ 8
    + byte_at packet 28 * 2 ^ 16
    + byte_at packet 29 * 2 ^ 24

unfoldable pub h_proto : List ℕ → ℕ
h_proto packet = byte_at packet 12 + byte_at packet 13 * 2 ^ 8

abbrev pub htons_eth_p_ip : ℕ
htons_eth_p_ip = 0x0008

-- `xdp_prog`; every value in the map is 1.
unfoldable pub xdp_prog : List ℕ → List ℕ → Verdict
unfolding src_ip h_proto has_key
xdp_prog blocked_ips packet =
    if ltb (length packet) 14
    then xdp_pass
    else (if h_proto packet == htons_eth_p_ip
        then (if ltb (length packet) 34
            then xdp_pass
            else (if has_key blocked_ips (src_ip packet) then xdp_drop else xdp_pass))
        else xdp_pass)

-- An IPv4 packet from an address, whatever its other bytes.
pub record IsFrom (packet : List ℕ) (a b c d : ℕ) : Type 0 where
  pub long : 34 < length packet + 1
  pub proto_high : byte_at packet 12 ≡ 8
  pub proto_low : byte_at packet 13 ≡ 0
  pub first : byte_at packet 26 ≡ a
  pub second : byte_at packet 27 ≡ b
  pub third : byte_at packet 28 ≡ c
  pub fourth : byte_at packet 29 ≡ d

pub has_key-single : (k key : ℕ) → has_key (k ∷ []) key ≡ true ↔ (k ≡ key)
unfolding has_key
has_key-single k key = (λ h. ground (arith, h), λ h. ground (arith, h))

-- The key of four octets is their number from the lowest up only if they read the same backwards.
pub from_be_bytes-palindrome :
    (a b c d : ℕ)
    → a < 256
    → b < 256
    → c < 256
    → d < 256
    → (from_be_bytes a b c d ≡ a + b * 2 ^ 8 + c * 2 ^ 16 + d * 2 ^ 24) ↔ ((a ≡ d) × (b ≡ c))
unfolding from_be_bytes
from_be_bytes-palindrome a b c d ha hb hc hd =
    (λ h. (omega (arith, h), omega (arith, h)), λ (p, q). omega (arith, p, q))

src_ip-IsFrom :
    (packet : List ℕ) {a b c d : ℕ}
    → IsFrom packet a b c d
    → src_ip packet ≡ a + b * 2 ^ 8 + c * 2 ^ 16 + d * 2 ^ 24
unfolding src_ip
src_ip-IsFrom packet from = omega (arith, from.first, from.second, from.third, from.fourth)

-- An IPv4 packet is dropped exactly when the map has the number of its source address.
pub xdp_prog-IsFrom :
    (keys : List ℕ) (packet : List ℕ) {a b c d : ℕ}
    → IsFrom packet a b c d
    → xdp_prog keys packet
      ≡ (if has_key keys (a + b * 2 ^ 8 + c * 2 ^ 16 + d * 2 ^ 24) then xdp_drop else xdp_pass)
unfolding xdp_prog h_proto
xdp_prog-IsFrom keys packet from =
    subst (λ s. xdp_prog keys packet ≡ (if has_key keys s then xdp_drop else xdp_pass))
      (src_ip-IsFrom packet from) (ground (arith, from.long, from.proto_high, from.proto_low))

keys-block_ip :
    (a b c d : ℕ) (x : LinuxXdpLimiter)
    → x.blocked_ips ≡ []
    → x.map_ok ≡ true
    → x.insert_ok ≡ true
    → (block_ip x (v4 a b c d)).0.blocked_ips ≡ from_be_bytes a b c d ∷ []
unfolding block_ip has_key
keys-block_ip a b c d x empty m i = ground (arith, empty, m, i)

-- On a little-endian machine, with nothing else blocked and a map that takes the insertion, an IPv4
-- packet from an address that `block_ip` was called on is dropped exactly when the address reads
-- the same backwards.
pub xdp_prog-block_ip :
    (a b c d : ℕ) (x : LinuxXdpLimiter) (packet : List ℕ)
    → a < 256
    → b < 256
    → c < 256
    → d < 256
    → x.blocked_ips ≡ []
    → x.map_ok ≡ true
    → x.insert_ok ≡ true
    → IsFrom packet a b c d
    → (xdp_prog (block_ip x (v4 a b c d)).0.blocked_ips packet ≡ xdp_drop) ↔ ((a ≡ d) × (b ≡ c))
unfolding xdp_prog block_ip
xdp_prog-block_ip a b c d x packet ha hb hc hd empty m i from =
    let n = a + b * 2 ^ 8 + c * 2 ^ 16 + d * 2 ^ 24 in
    let found = has_key-single (from_be_bytes a b c d) n in
    let same = from_be_bytes-palindrome a b c d ha hb hc hd in
    subst (λ keys. (xdp_prog keys packet ≡ xdp_drop) ↔ ((a ≡ d) × (b ≡ c)))
      (sym (keys-block_ip a b c d x empty m i))
      (subst (λ v. (v ≡ xdp_drop) ↔ ((a ≡ d) × (b ≡ c)))
        (sym (xdp_prog-IsFrom (from_be_bytes a b c d ∷ []) packet from))
        (λ h. same.0 (found.0 (ground (arith, h))), λ h. ground (arith, found.1 (same.1 h))))
