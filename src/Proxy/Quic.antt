-- ===== src/Proxy/Quic.antt =====
-- vortex-proxy/src/quic_server.rs. What the crate quinn makes of a TLS configuration and an address,
-- and which connections come, are arguments. The routing table is passed and not used.
use vortex_proxy.Prelude.{Bool, List, [], ◌∷◌, Option, none, some, bytes, if◌then◌else◌}
use vortex_proxy.Net.{SocketAddr}
use vortex_proxy.Outcome.{Outcome, ok, err, panic}
use vortex_proxy.Proxy.Tls.Reload.{load_certs, load_private_key}
use vortex_proxy.Proxy.Tls.Config.{ServerConfig, configure}

-- What becomes of a connection: it is logged and, at the end of its task, dropped.
pub data Event : Type 0 where
  established : SocketAddr → Event
  failed : Event

pub record Quinn (Cert Key : Type 0) : Type 0 where
  -- `QuicServerConfig::try_from`
  pub takes_config : ServerConfig Cert Key → Bool
  -- `Endpoint::server`
  pub binds : SocketAddr → Bool

module _ {Cert Key : Type 0} (accepts : List Cert → Key → Bool) (quinn : Quinn Cert Key) where
  -- What the tasks of the accept loop log, until the endpoint is closed.
  unfoldable pub accepted : List (Option SocketAddr) → List Event
  accepted [] = []
  accepted (none ∷ conns) = failed ∷ accepted conns
  accepted (some addr ∷ conns) = established addr ∷ accepted conns

  unfoldable pub endpoint :
      SocketAddr → List (Option SocketAddr) → Outcome (ServerConfig Cert Key) → Outcome (List Event)
  unfolding accepted
  endpoint addr conns err = err
  endpoint addr conns panic = panic
  endpoint addr conns (ok config) =
      if quinn.takes_config config
      then (if quinn.binds addr then ok (accepted conns) else err)
      else err

  unfoldable pub start_quic_server :
      SocketAddr
      → Option (List Cert)
      → Option (List Key)
      → List (Option SocketAddr)
      → Outcome (List Event)
  unfolding endpoint configure load_certs load_private_key
  start_quic_server addr cert_file key_file conns =
      endpoint addr conns
        (configure accepts (bytes "h3" ∷ []) (load_certs cert_file) (load_private_key key_file))
