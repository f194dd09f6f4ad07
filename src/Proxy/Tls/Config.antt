-- ===== src/Proxy/Tls/Config.antt =====
-- `load_tls_config` of tls.rs. Whether the certificates and the key go together is for rustls to say:
-- the argument `accepts`, for `with_single_cert`.
use vortex_proxy.Prelude.{
  ◌≡◌, ◌≢◌, Has, arith, if◌then◌else◌, Bool, List, [], ◌∷◌, Option, some, Text, bytes,
}
use vortex_proxy.Outcome.{Outcome, ok, err, panic}
use vortex_proxy.Proxy.Tls.Reload.{load_certs, load_private_key}

pub record ServerConfig (Cert Key : Type 0) : Type 0 where
  pub certs : List Cert
  pub key : Key
  pub alpn_protocols : List Text

module _ {Cert Key : Type 0} (accepts : List Cert → Key → Bool) where
  -- The configuration behind both files, for the protocols that are offered. A panic of
  -- `load_private_key` is the caller's.
  unfoldable pub configure :
      List Text → Outcome (List Cert) → Outcome Key → Outcome (ServerConfig Cert Key)
  configure alpn err key = err
  configure alpn panic key = panic
  configure alpn (ok certs) err = err
  configure alpn (ok certs) panic = panic
  configure alpn (ok certs) (ok key) =
      if accepts certs key
      then ok (record { certs = certs; key = key; alpn_protocols = alpn })
      else err

  unfoldable pub load_tls_config :
      Option (List Cert) → Option (List Key) → Outcome (ServerConfig Cert Key)
  unfolding configure load_certs load_private_key
  load_tls_config cert_file key_file =
      configure (bytes "h2" ∷ bytes "http/1.1" ∷ []) (load_certs cert_file)
        (load_private_key key_file)

-- What rustls does with the protocols of a server and of a client: the server's order decides.
pub record Alpn : Type 0 where
  pub negotiate : List Text → List Text → Option Text
  pub negotiate-first :
      (p : Text) (protocols client : List Text)
      → Has p client
      → negotiate (p ∷ protocols) client ≡ some p

-- What `http1::Builder` of server.rs serves on every connection.
abbrev pub served_protocol : Text
served_protocol = bytes "http/1.1"

h2-ne-served : bytes "h2" ≢ served_protocol
h2-ne-served e = cc

module _ {Cert Key : Type 0} (accepts : List Cert → Key → Bool) where
  -- A client that offers HTTP/2 to a server with the configuration that `load_tls_config` makes is told
  -- to speak it, though the server serves another protocol on the connection.
  pub load_tls_config-alpn :
      (alpn : Alpn) (cert_file : Option (List Cert)) (key_file : Option (List Key))
      (client : List Text) {config : ServerConfig Cert Key}
      → load_tls_config accepts cert_file key_file ≡ ok config
      → Has (bytes "h2") client
      → (alpn.negotiate config.alpn_protocols client ≡ some (bytes "h2"))
        × (alpn.negotiate config.alpn_protocols client ≢ some served_protocol)
  unfolding load_tls_config configure load_certs load_private_key
  load_tls_config-alpn alpn cert_file key_file client h offered =
      let first = alpn.negotiate-first (bytes "h2") (bytes "http/1.1" ∷ []) client offered in
      (ground (arith, h, first), λ e. h2-ne-served (ground (arith, h, first, e)))
