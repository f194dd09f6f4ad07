-- ===== src/Proxy/Tls/Tests.antt =====
-- The unit tests of tls.rs and of vortex-proxy/tests/sni_manager_test.rs, and the theorems at concrete
-- managers. A certificate is a number here, and so is a key.
use vortex_proxy.Prelude.{
  ℕ, ◌≡◌, ◌≢◌, ◌⊎◌, ◌↔◌, refl, arith, List, [], ◌∷◌, ◌++◌, Option, none, some, Text, bytes,
  ℕ_discrete, Bool, true, false, Has, inl, inr, if◌then◌else◌, text_eq, text_eq_refl, subst,
}
use vortex_proxy.DashMap.{DashMap}
use vortex_proxy.DashMap.Assoc.{assoc}
use vortex_proxy.Proxy.Tls.{
  CertKeyBundle, SniCertificateManager, Text-discrete, to_lowercase, from_dot, dot, new,
  set_default, with_default, register_domain, remove_domain, domain_count, wildcard_or_default,
  get_certificate,
}
use vortex_proxy.Proxy.Tls.Lower.{IsLabel}
use vortex_proxy.Proxy.Tls.Matching.{wildcard, get_certificate-wildcard, get_certificate-one_level}
use vortex_proxy.Outcome.{ok, panic}
use vortex_proxy.Proxy.Tls.Config.{
  ServerConfig, Alpn, served_protocol, load_tls_config, configure, load_tls_config-alpn,
}
use vortex_proxy.Proxy.Tls.Reload.{
  load_certs, load_private_key, reload_from_paths, reload_from_paths-cases,
}

abbrev map : DashMap Text (CertKeyBundle ℕ ℕ) Text-discrete
map = assoc Text-discrete

program : Unit {0}
unfolding assoc Text-discrete ℕ_discrete to_lowercase from_dot new set_default with_default
    register_domain remove_domain domain_count wildcard_or_default get_certificate
program = tt

abbrev bundle : ℕ → CertKeyBundle ℕ ℕ
bundle n = record { certs = n ∷ []; key = n }

abbrev manager : SniCertificateManager map
manager =
    register_domain map (register_domain map (new map) (bytes "example.com") (1 ∷ []) 1)
      (bytes "*.test.org") (2 ∷ []) 2

exact_and_wildcard :
    (get_certificate map manager (bytes "example.com") ≡ some (bundle 1))
    × (get_certificate map manager (bytes "EXAMPLE.COM") ≡ some (bundle 1))
    × (get_certificate map manager (bytes "sub.test.org") ≡ some (bundle 2))
    × (get_certificate map manager (bytes "unknown.net") ≡ none)
    × (domain_count map manager ≡ 2)
unfolding program
exact_and_wildcard = (refl, refl, refl, refl, refl)

default_fallback :
    get_certificate map (with_default map (9 ∷ []) 9) (bytes "anydomain.com") ≡ some (bundle 9)
unfolding program
default_fallback = refl

sub-IsLabel : IsLabel (bytes "sub")
sub-IsLabel = (λ e. omega (arith, e), (λ e. omega (arith, e), (λ e. omega (arith, e), tt)))

get_certificate-wildcard_example :
    get_certificate map
      (register_domain map manager (wildcard (bytes "test.org")) (4 ∷ []) 4)
      (bytes "sub" ++ dot ∷ bytes "test.org")
    ≡ some (record { certs = 4 ∷ []; key = 4 })
unfolding program
get_certificate-wildcard_example =
    get_certificate-wildcard map manager (bytes "sub") (bytes "test.org") (4 ∷ []) 4 sub-IsLabel
      refl

get_certificate-one_level_example :
    get_certificate map
      (register_domain map manager (wildcard (bytes "com")) (4 ∷ []) 4)
      (bytes "sub" ++ dot ∷ (bytes "example" ++ dot ∷ bytes "com"))
    ≡ get_certificate map manager (bytes "sub" ++ dot ∷ (bytes "example" ++ dot ∷ bytes "com"))
get_certificate-one_level_example =
    get_certificate-one_level map manager (bytes "sub") (bytes "example") (bytes "com") (4 ∷ []) 4
      sub-IsLabel (omega arith)

abbrev no_keys : Option (List ℕ)
no_keys = some []

reload_from_paths-cases_example :
    ((certs : List ℕ) × (key : ℕ) × (keys : List ℕ) × (some (5 ∷ []) ≡ some certs)
      × (no_keys ≡ some (key ∷ keys))
      × (reload_from_paths map manager (bytes "a.b") (some (5 ∷ [])) no_keys
          ≡ (register_domain map manager (bytes "a.b") certs key, ok tt)))
    ⊎ (((reload_from_paths map manager (bytes "a.b") (some (5 ∷ [])) no_keys).0 ≡ manager)
        × ((reload_from_paths map manager (bytes "a.b") (some (5 ∷ [])) no_keys).1 ≢ ok tt)
        × (((reload_from_paths map manager (bytes "a.b") (some (5 ∷ [])) no_keys).1 ≡ panic)
            ↔ ((certs : List ℕ) × (some (5 ∷ []) ≡ some certs) × (no_keys ≡ some []))))
reload_from_paths-cases_example =
    reload_from_paths-cases map manager (bytes "a.b") (some (5 ∷ [])) no_keys

abbrev offers : Text → List Text → Bool
offers p [] = false
offers p (q ∷ protocols) = if text_eq p q then true else offers p protocols

Has-offers : (p : Text) (protocols : List Text) → Has p protocols → offers p protocols ≡ true
Has-offers p [] h = absurd h
Has-offers p (q ∷ protocols) (inl e) =
    ground (arith, subst (λ (t : Text). text_eq p t ≡ true) e (text_eq_refl p))
Has-offers p (q ∷ protocols) (inr there) = ground (arith, Has-offers p protocols there)

-- The first protocol of the server that the client offers.
abbrev first_offered : List Text → List Text → Option Text
first_offered [] client = none
first_offered (p ∷ protocols) client =
    if offers p client then some p else first_offered protocols client

alpn-first :
    (p : Text) (protocols client : List Text)
    → Has p client
    → first_offered (p ∷ protocols) client ≡ some p
alpn-first p protocols client h = ground (arith, Has-offers p client h)

abbrev alpn : Alpn
alpn = record { negotiate = first_offered; negotiate-first = alpn-first }

abbrev config : ServerConfig ℕ ℕ
config = record { certs = 1 ∷ []; key = 2; alpn_protocols = bytes "h2" ∷ bytes "http/1.1" ∷ [] }

abbrev browser : List Text
browser = bytes "http/1.1" ∷ bytes "h2" ∷ []

load_tls_config-alpn_example :
    (alpn.negotiate config.alpn_protocols browser ≡ some (bytes "h2"))
    × (alpn.negotiate config.alpn_protocols browser ≢ some served_protocol)
unfolding load_tls_config configure load_certs load_private_key
load_tls_config-alpn_example =
    load_tls_config-alpn (λ certs key. true) alpn (some (1 ∷ [])) (some (2 ∷ [])) browser
      {config = config} refl (inr (inl refl))
