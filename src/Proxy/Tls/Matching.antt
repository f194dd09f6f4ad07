-- ===== src/Proxy/Tls/Matching.antt =====
-- Which certificate of tls.rs a server name gets.
use vortex_proxy.Prelude.{
  ◌+◌, ◌<◌, ◌≡◌, ◌≢◌, refl, sym, ap, ◌∙◌, arith, List, [], ◌∷◌, ◌++◌, Option, none, some, Text,
  length, subst,
}
use vortex_proxy.DashMap.{DashMap}
use vortex_proxy.Proxy.Tls.{
  CertKeyBundle, SniCertificateManager, to_lowercase, from_dot, dot, star, Text-discrete,
  register_domain, remove_domain, wildcard_or_default, get_certificate, is_some,
}
use vortex_proxy.Proxy.Tls.Lower.{
  IsLabel, to_lowercase_idem, to_lowercase-dot, length-to_lowercase, to_lowercase-IsLabel,
  from_dot-label,
}

-- `*.rest`
abbrev pub wildcard : Text → Text
wildcard rest = star ∷ dot ∷ rest

to_lowercase-wildcard : (rest : Text) → to_lowercase (wildcard rest) ≡ wildcard (to_lowercase rest)
unfolding to_lowercase
to_lowercase-wildcard rest = refl

length-append : (s t : Text) → length (s ++ t) ≡ length s + length t
length-append [] t = omega arith
length-append (b ∷ s) t = ground (arith, length-append s t)

ne_of_length : {s t : Text} → length s ≢ length t → s ≢ t
ne_of_length n e = n (ap length e)

longer_tail :
    (sub rest : Text)
    → 0 < length sub
    → length (star ∷ dot ∷ to_lowercase (sub ++ dot ∷ rest)) ≢ length (to_lowercase (wildcard rest))
longer_tail sub rest h =
    rw (length-to_lowercase, length-to_lowercase)
      (λ e. omega (arith, e, length-append sub (dot ∷ rest)))

longer_name :
    (label sub rest : Text)
    → 0 < length sub
    → length (to_lowercase (label ++ dot ∷ (sub ++ dot ∷ rest)))
      ≢ length (to_lowercase (wildcard rest))
longer_name label sub rest h =
    rw (length-to_lowercase, length-to_lowercase)
      (λ e.
        omega (
          arith,
          e,
          length-append label (dot ∷ (sub ++ dot ∷ rest)),
          length-append sub (dot ∷ rest),
        ))

module _ {Cert Key : Type 0} (D : DashMap Text (CertKeyBundle Cert Key) Text-discrete) where
  get_certificate-exact :
      (m : SniCertificateManager D) (name : Text) {bundle : CertKeyBundle Cert Key}
      → D.get m.domains (to_lowercase name) ≡ some bundle
      → get_certificate D m name ≡ some bundle
  unfolding get_certificate
  get_certificate-exact m name e = ground (arith, e)

  get_certificate-inexact :
      (m : SniCertificateManager D) (name : Text)
      → D.get m.domains (to_lowercase name) ≡ none
      → get_certificate D m name ≡ wildcard_or_default D m (from_dot (to_lowercase name))
  unfolding get_certificate
  get_certificate-inexact m name e = ground (arith, e)

  from_dot-name :
      (label rest : Text)
      → IsLabel label
      → from_dot (to_lowercase (label ++ dot ∷ rest)) ≡ some (dot ∷ to_lowercase rest)
  from_dot-name label rest h =
      ap from_dot (to_lowercase-dot label rest)
      ∙ from_dot-label (to_lowercase label) (to_lowercase rest) (to_lowercase-IsLabel label h)

  registered_self :
      (m : SniCertificateManager D) (domain : Text) (certs : List Cert) (key : Key)
      → D.get (register_domain D m domain certs key).domains (to_lowercase domain)
        ≡ some (record { certs = certs; key = key })
  unfolding register_domain
  registered_self m domain certs key = D.get-insert_self m.domains (to_lowercase domain) _

  registered-ne :
      (m : SniCertificateManager D) (domain q : Text) (certs : List Cert) (key : Key)
      → q ≢ to_lowercase domain
      → D.get (register_domain D m domain certs key).domains q ≡ D.get m.domains q
  unfolding register_domain
  registered-ne m domain q certs key n = D.get-insert_ne m.domains (to_lowercase domain) q _ n

  -- `get_certificate` on a name in lower case.
  served : SniCertificateManager D → Text → Option (CertKeyBundle Cert Key)
  served m clean_name = elim (D.get m.domains clean_name) [
    | some bundle ↦ some bundle
    | none ↦ wildcard_or_default D m (from_dot clean_name)
  ]

  served_congr :
      (m m' : SniCertificateManager D) (clean : Text)
      → D.get m'.domains clean ≡ D.get m.domains clean
      → wildcard_or_default D m' (from_dot clean) ≡ wildcard_or_default D m (from_dot clean)
      → served m' clean ≡ served m clean
  unfolding served
  served_congr m m' clean e w = ground (arith, e, w)

  wildcard_congr :
      (m : SniCertificateManager D) (domain suffix : Text) (certs : List Cert) (key : Key)
      → star ∷ suffix ≢ to_lowercase domain
      → wildcard_or_default D (register_domain D m domain certs key) (some suffix)
        ≡ wildcard_or_default D m (some suffix)
  unfolding wildcard_or_default register_domain
  wildcard_congr m domain suffix certs key n =
      ground (arith, registered-ne m domain (star ∷ suffix) certs key n)

  -- The case of a server name does not matter.
  pub get_certificate-to_lowercase :
      (m : SniCertificateManager D) (name : Text)
      → get_certificate D m (to_lowercase name) ≡ get_certificate D m name
  unfolding get_certificate served
  get_certificate-to_lowercase m name = ap (served m) (to_lowercase_idem name)

  -- A registered domain is served its own bundle from then on, whatever was registered for it before
  -- and in whatever case either name is written.
  pub get_certificate-registered :
      (m : SniCertificateManager D) (domain name : Text) (certs : List Cert) (key : Key)
      → to_lowercase domain ≡ to_lowercase name
      → get_certificate D (register_domain D m domain certs key) name
        ≡ some (record { certs = certs; key = key })
  get_certificate-registered m domain name certs key e =
      get_certificate-exact (register_domain D m domain certs key) name (
        subst
          (λ k.
            D.get (register_domain D m domain certs key).domains k
            ≡ some (record { certs = certs; key = key }))
          e (registered_self m domain certs key))

  -- A bundle that is registered for `*.rest` is served to every name `label.rest` with one label
  -- before the first dot, unless that name had a bundle of its own.
  pub get_certificate-wildcard :
      (m : SniCertificateManager D) (label rest : Text) (certs : List Cert) (key : Key)
      → IsLabel label
      → D.get m.domains (to_lowercase (label ++ dot ∷ rest)) ≡ none
      → get_certificate D (register_domain D m (wildcard rest) certs key) (label ++ dot ∷ rest)
        ≡ some (record { certs = certs; key = key })
  unfolding wildcard_or_default
  get_certificate-wildcard m label rest certs key h absent =
      let name = label ++ dot ∷ rest in
      let m' = register_domain D m (wildcard rest) certs key in
      let found =
        subst (λ k. D.get m'.domains k ≡ some (record { certs = certs; key = key }))
          (to_lowercase-wildcard rest) (registered_self m (wildcard rest) certs key) in
      elim (Text-discrete (to_lowercase name) (to_lowercase (wildcard rest))) [
        | yes e ↦ get_certificate-registered m (wildcard rest) name certs key (sym e)
        | no n ↦
            get_certificate-inexact m' name (registered-ne m (wildcard rest) _ certs key n ∙ absent)
            ∙ ap (wildcard_or_default D m') (from_dot-name label rest h)
            ∙ ground (arith, found)
      ]

  -- The wildcard `*.rest` is for one level only: registering it does not change what a name
  -- `label.sub.rest` is served, with a label before the first dot and a `sub` that is not empty.
  pub get_certificate-one_level :
      (m : SniCertificateManager D) (label sub rest : Text) (certs : List Cert) (key : Key)
      → IsLabel label
      → 0 < length sub
      → get_certificate D
          (register_domain D m (wildcard rest) certs key)
          (label ++ dot ∷ (sub ++ dot ∷ rest))
        ≡ get_certificate D m (label ++ dot ∷ (sub ++ dot ∷ rest))
  unfolding get_certificate served
  get_certificate-one_level m label sub rest certs key h longer =
      let tail = sub ++ dot ∷ rest in
      let name = label ++ dot ∷ tail in
      let m' = register_domain D m (wildcard rest) certs key in
      let e = from_dot-name label tail h in
      served_congr m m' (to_lowercase name)
        (registered-ne m (wildcard rest) (to_lowercase name) certs key
          (ne_of_length (longer_name label sub rest longer)))
        (subst (λ o. wildcard_or_default D m' o ≡ wildcard_or_default D m o) (sym e)
          (wildcard_congr m (wildcard rest) (dot ∷ to_lowercase tail) certs key
            (ne_of_length (longer_tail sub rest longer))))

  -- `remove_domain` on a name `label.rest`, with one label before the first dot, reports whether it
  -- was registered; after it the name is served the bundle of the wildcard `*.rest`, or the default
  -- one where that is not registered.
  pub get_certificate-remove_domain :
      (m : SniCertificateManager D) (label rest : Text)
      → IsLabel label
      → (get_certificate D (remove_domain D m (label ++ dot ∷ rest)).0 (label ++ dot ∷ rest)
          ≡ wildcard_or_default D
              (remove_domain D m (label ++ dot ∷ rest)).0
              (some (dot ∷ to_lowercase rest)))
        × ((remove_domain D m (label ++ dot ∷ rest)).1
            ≡ is_some D (D.get m.domains (to_lowercase (label ++ dot ∷ rest))))
  unfolding remove_domain
  get_certificate-remove_domain m label rest h = (
    get_certificate-inexact (remove_domain D m (label ++ dot ∷ rest)).0 (label ++ dot ∷ rest)
          (D.get-remove_self m.domains (to_lowercase (label ++ dot ∷ rest)))
        ∙ ap (wildcard_or_default D (remove_domain D m (label ++ dot ∷ rest)).0)
            (from_dot-name label rest h),
    refl,
  )
