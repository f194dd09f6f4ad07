-- ===== src/Ebpf/Load.antt =====
-- `LinuxXdpLimiter::new` of vortex-ebpf/src/linux.rs. The crate aya and the kernel are the interface
-- `Aya`; whether later calls on the map succeed is for the environment to say.
use vortex_proxy.Prelude.{◌≡◌, refl, Bool, false, [], Option, Text, bytes, arith}
use vortex_proxy.Net.{IpAddr, v4, v6}
use vortex_proxy.Outcome.{Outcome, ok, result, unwrap_or_panic, ◌>>=◌, >>=-eq-ok}
use vortex_proxy.Ebpf.Linux.{LinuxXdpLimiter, is_ip_blocked, has_key}

pub record Aya : Type 1 where
  pub Bpf : Type 0
  pub Program : Type 0
  pub Xdp : Type 0
  -- `Bpf::load`: the maps are made with no key in them.
  pub load : Text → Option Bpf
  pub program_mut : Bpf → Text → Option Program
  pub try_into : Program → Option Xdp
  pub load_program : Xdp → Option Xdp
  pub attach : Xdp → Text → Option Xdp
  pub map_ok : Bpf → Bool
  pub insert_ok : Bpf → Bool

module _ (aya : Aya) where
  -- A program that is missing panics; every other failure is an error.
  unfoldable pub new : Text → Text → Outcome LinuxXdpLimiter
  new interface bpf_code = result (aya.load bpf_code) >>= λ bpf.
      unwrap_or_panic (aya.program_mut bpf (bytes "xdp_drop_ips")) >>= λ found.
      result (aya.try_into found) >>= λ program. result (aya.load_program program) >>= λ loaded.
      result (aya.attach loaded interface) >>= λ attached.
      ok (record { blocked_ips = []; map_ok = aya.map_ok bpf; insert_ok = aya.insert_ok bpf })

  -- A limiter that has just been loaded blocks nothing.
  pub new-fresh :
      (interface bpf_code : Text) {x : LinuxXdpLimiter}
      → new interface bpf_code ≡ ok x
      → (q : IpAddr) → is_ip_blocked x q ≡ false
  unfolding new is_ip_blocked has_key
  new-fresh interface bpf_code h q =
      let (bpf, _, h1) = >>=-eq-ok (result (aya.load bpf_code)) _ h in
      let (found, _, h2) =
        >>=-eq-ok (unwrap_or_panic (aya.program_mut bpf (bytes "xdp_drop_ips"))) _ h1 in
      let (program, _, h3) = >>=-eq-ok (result (aya.try_into found)) _ h2 in
      let (loaded, _, h4) = >>=-eq-ok (result (aya.load_program program)) _ h3 in
      let (attached, _, h5) = >>=-eq-ok (result (aya.attach loaded interface)) _ h4 in
      unblocked q h5
    where
      unblocked :
          {bpf : aya.Bpf} {x : LinuxXdpLimiter} (q : IpAddr)
          → ok (record { blocked_ips = []; map_ok = aya.map_ok bpf; insert_ok = aya.insert_ok bpf })
            ≡ ok x
          → is_ip_blocked x q ≡ false
      unblocked (v4 a b c d) e = ground (arith, e)
      unblocked (v6 bits) e = refl
