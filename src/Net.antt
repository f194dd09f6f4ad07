-- ===== src/Net.antt =====
-- `std::net`: addresses by value.
use vortex_proxy.Prelude.{ℕ, ℕ_discrete}

-- An IPv4 address is its four octets, an IPv6 address its 128 bits.
pub data IpAddr : Type 0 where
  v4 : ℕ → ℕ → ℕ → ℕ → IpAddr
  v6 : ℕ → IpAddr

pub record SocketAddr : Type 0 where
  pub ip : IpAddr
  pub port : ℕ

unfoldable pub IpAddr-discrete : Discrete IpAddr
IpAddr-discrete = hlevel ℕ_discrete

unfoldable pub SocketAddr-discrete : Discrete SocketAddr
unfolding IpAddr-discrete
SocketAddr-discrete = hlevel (ℕ_discrete, IpAddr-discrete)
