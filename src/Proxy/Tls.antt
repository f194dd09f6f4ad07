-- ===== src/Proxy/Tls.antt =====
-- vortex-proxy/src/tls.rs. A certificate and a private key are of the crate rustls: types `Cert` and
-- `Key`, arguments of the model. What a PEM file gives is an argument too. Domain names are ASCII, and
-- `to_lowercase` is that of ASCII.
pub mod Lower
pub mod Matching
pub mod Reload
pub mod Config
mod Tests
use vortex_proxy.Prelude.{
  ℕ, ◌+◌, leb, Bool, true, false, Option, none, some, List, [], ◌∷◌, if◌then◌else◌, ◌&&◌, ◌==◌,
  Text, ℕ_discrete,
}
use vortex_proxy.DashMap.{DashMap}

unfoldable pub Text-discrete : Discrete Text
Text-discrete = hlevel ℕ_discrete

pub record CertKeyBundle (Cert Key : Type 0) : Type 0 where
  pub certs : List Cert
  pub key : Key

abbrev pub lower_byte : ℕ → ℕ
lower_byte b = if leb 65 b && leb b 90 then b + 32 else b

unfoldable pub to_lowercase : Text → Text
to_lowercase [] = []
to_lowercase (b ∷ s) = lower_byte b ∷ to_lowercase s

abbrev pub dot : ℕ
dot = 46

abbrev pub star : ℕ
star = 42

-- `&name[name.find('.')..]`
unfoldable pub from_dot : Text → Option Text
from_dot [] = none
from_dot (b ∷ s) = let rest = from_dot s in if b == dot then some (b ∷ s) else rest

module _ {Cert Key : Type 0} (D : DashMap Text (CertKeyBundle Cert Key) Text-discrete) where
  pub record SniCertificateManager : Type 0 where
    pub domains : D.Map
    pub default_bundle : Option (CertKeyBundle Cert Key)

  unfoldable pub new : SniCertificateManager
  new = record { domains = D.empty; default_bundle = none }

  unfoldable pub set_default : SniCertificateManager → List Cert → Key → SniCertificateManager
  set_default m certs key = record m { default_bundle = some (record { certs = certs; key = key }) }

  unfoldable pub with_default : List Cert → Key → SniCertificateManager
  unfolding new set_default
  with_default certs key = set_default new certs key

  unfoldable pub register_domain :
      SniCertificateManager → Text → List Cert → Key → SniCertificateManager
  register_domain m domain certs key = record m {
    domains = D.insert m.domains (to_lowercase domain) (record { certs = certs; key = key });
  }

  abbrev pub is_some : {A : Type 0} → Option A → Bool
  is_some none = false
  is_some (some _) = true

  -- The Boolean says whether there was such a domain.
  unfoldable pub remove_domain : SniCertificateManager → Text → SniCertificateManager × Bool
  remove_domain m domain = (
    record m { domains = D.remove m.domains (to_lowercase domain) },
    is_some (D.get m.domains (to_lowercase domain)),
  )

  unfoldable pub domain_count : SniCertificateManager → ℕ
  domain_count m = D.len m.domains

  -- The wildcard match and the default of `get_certificate`, for a name in lower case.
  unfoldable pub wildcard_or_default :
      SniCertificateManager → Option Text → Option (CertKeyBundle Cert Key)
  wildcard_or_default m none = m.default_bundle
  wildcard_or_default m (some suffix) = elim (D.get m.domains (star ∷ suffix)) [
    | some bundle ↦ some bundle
    | none ↦ m.default_bundle
  ]

  unfoldable pub get_certificate : SniCertificateManager → Text → Option (CertKeyBundle Cert Key)
  unfolding wildcard_or_default
  get_certificate m server_name =
      let clean_name = to_lowercase server_name in
      elim (D.get m.domains clean_name) [
        | some bundle ↦ some bundle
        | none ↦ wildcard_or_default m (from_dot clean_name)
      ]
