-- ===== src/Proxy/Tls/Reload.antt =====
-- `load_certs`, `load_private_key` and `reload_from_paths` of tls.rs, on what the two PEM files give.
use vortex_proxy.Prelude.{
  ◌≡◌, ◌≢◌, ◌⊎◌, inl, inr, refl, List, [], ◌∷◌, Option, none, some, Text, ◌↔◌,
}
use vortex_proxy.DashMap.{DashMap}
use vortex_proxy.Proxy.Tls.{CertKeyBundle, SniCertificateManager, Text-discrete, register_domain}
use vortex_proxy.Outcome.{Outcome, ok, err, panic}

-- A file that cannot be opened or has an entry that is not PEM gives `none`.
unfoldable pub load_certs : {Cert : Type 0} → Option (List Cert) → Outcome (List Cert)
load_certs none = err
load_certs (some certs) = ok certs

-- `Vec::remove(0)` panics on an empty vector.
unfoldable pub load_private_key : {Key : Type 0} → Option (List Key) → Outcome Key
load_private_key none = err
load_private_key (some []) = panic
load_private_key (some (key ∷ keys)) = ok key

module _ {Cert Key : Type 0} (D : DashMap Text (CertKeyBundle Cert Key) Text-discrete) where
  -- The manager after the call, and how the call ends.
  unfoldable pub register_loaded :
      SniCertificateManager D
      → Text
      → Outcome (List Cert)
      → Outcome Key
      → SniCertificateManager D × Outcome (Unit {0})
  register_loaded m domain err key = (m, err)
  register_loaded m domain panic key = (m, panic)
  register_loaded m domain (ok certs) err = (m, err)
  register_loaded m domain (ok certs) panic = (m, panic)
  register_loaded m domain (ok certs) (ok key) = (register_domain D m domain certs key, ok tt)

  unfoldable pub reload_from_paths :
      SniCertificateManager D
      → Text
      → Option (List Cert)
      → Option (List Key)
      → SniCertificateManager D × Outcome (Unit {0})
  unfolding register_loaded load_certs load_private_key
  reload_from_paths m domain cert_file key_file =
      register_loaded m domain (load_certs cert_file) (load_private_key key_file)

  -- A reload that does not succeed leaves the manager as it was, and one that does registers the
  -- certificates with the first key. It panics exactly when both files can be read and the key file
  -- has no key, which is no error for the caller to handle.
  pub reload_from_paths-cases :
      (m : SniCertificateManager D) (domain : Text) (cert_file : Option (List Cert))
      (key_file : Option (List Key))
      → ((certs : List Cert) × (key : Key) × (keys : List Key) × (cert_file ≡ some certs)
          × (key_file ≡ some (key ∷ keys))
          × (reload_from_paths m domain cert_file key_file
              ≡ (register_domain D m domain certs key, ok tt)))
        ⊎ (((reload_from_paths m domain cert_file key_file).0 ≡ m)
            × ((reload_from_paths m domain cert_file key_file).1 ≢ ok tt)
            × (((reload_from_paths m domain cert_file key_file).1 ≡ panic)
                ↔ ((certs : List Cert) × (cert_file ≡ some certs) × (key_file ≡ some []))))
  unfolding reload_from_paths register_loaded load_certs load_private_key
  reload_from_paths-cases m domain none key_file =
      inr (refl, λ e. cc, (λ e. cc, λ (certs, e, f). cc))
  reload_from_paths-cases m domain (some certs) none =
      inr (refl, λ e. cc, (λ e. cc, λ (certs, e, f). cc))
  reload_from_paths-cases m domain (some certs) (some []) =
      inr (refl, λ e. cc, (λ e. (certs, refl, refl), λ _. refl))
  reload_from_paths-cases m domain (some certs) (some (key ∷ keys)) =
      inl (certs, key, keys, refl, refl, refl)
