-- ===== src/Proxy/Server/Exchange/Home.antt =====
-- The connections that requests hold, and to whom they were made.
use vortex_proxy.Prelude.{
  ℕ, ◌≡◌, ◌≢◌, refl, subst, Bool, Option, none, some, Bool-cases, inl, inr, List, [], ◌∷◌, ◌++◌,
  All, get_elem?, total, length, ◌==◌, arith, total_none, get_elem?-append, get_elem?-length,
}
use vortex_proxy.Net.{SocketAddr}
use vortex_proxy.Core.Backend.{SharedBackend}
use vortex_proxy.Proxy.Server.Exchange.Queues.{is, one, Handed}
use vortex_proxy.Proxy.Server.Exchange.{
  Exchange, selected, guarded, checking, dialing, preparing, sending, returning, pooled, leaving,
  over, after_pop,
}

-- Whether an exchange holds connection `n`.
abbrev pub holds : ℕ → Exchange → ℕ
holds n (checking addr b m) = is n m
holds n (preparing addr b m) = is n m
holds n (sending addr b m) = is n m
holds n (returning addr b m) = is n m
holds n _ = 0

-- The connection that an exchange holds was made to its address.
abbrev pub IsHome : List SocketAddr → Exchange → Type 0
IsHome opened (checking addr b n) = get_elem? opened n ≡ some addr
IsHome opened (preparing addr b n) = get_elem? opened n ≡ some addr
IsHome opened (sending addr b n) = get_elem? opened n ≡ some addr
IsHome opened (returning addr b n) = get_elem? opened n ≡ some addr
IsHome opened _ = Unit

module _ (opened : List SocketAddr) where
  -- A connection that was made to one address is not in the queue of another.
  pub idle_elsewhere :
      (n : ℕ) (addr other : SocketAddr) (l : List ℕ)
      → get_elem? opened n ≡ some addr
      → other ≢ addr
      → All (λ m. get_elem? opened m ≡ some other) l
      → total (is n) l ≡ 0
  idle_elsewhere n addr other l e ne home =
      total_none (λ m. get_elem? opened m ≡ some other) (is n) l
        (λ m h. elim (Bool-cases (m == n)) [
          | inl same ↦
              let eq : m ≡ n = ground (arith, same) in
              let found = subst (λ k. get_elem? opened k ≡ some other) eq h in
              absurd (ne (cc (found, e)))
          | inr apart ↦ ground (arith, apart)
        ])
        home

  -- A number that no connection has.
  pub fresh :
      (m : ℕ) {addr : SocketAddr} → get_elem? opened m ≡ some addr → is (length opened) m ≡ 0
  fresh m {addr = addr} h = elim (Bool-cases (m == length opened)) [
    | inl same ↦
        let eq : m ≡ length opened = ground (arith, same) in
        let found = subst (λ k. get_elem? opened k ≡ some addr) eq h in
        cc (found, (get_elem?-length opened addr).0)
    | inr apart ↦ ground (arith, apart)
  ]

  pub fresh-holds : (e : Exchange) → IsHome opened e → holds (length opened) e ≡ 0
  fresh-holds (checking addr b m) h = fresh m h
  fresh-holds (preparing addr b m) h = fresh m h
  fresh-holds (sending addr b m) h = fresh m h
  fresh-holds (returning addr b m) h = fresh m h
  fresh-holds (selected addr b) h = refl
  fresh-holds (guarded addr b) h = refl
  fresh-holds (dialing addr b) h = refl
  fresh-holds (pooled addr b) h = refl
  fresh-holds (leaving addr b) h = refl
  fresh-holds over h = refl

  pub IsHome-append :
      (to : SocketAddr) (e : Exchange) → IsHome opened e → IsHome (opened ++ to ∷ []) e
  IsHome-append to (checking addr b m) h = get_elem?-append opened to m h
  IsHome-append to (preparing addr b m) h = get_elem?-append opened to m h
  IsHome-append to (sending addr b m) h = get_elem?-append opened to m h
  IsHome-append to (returning addr b m) h = get_elem?-append opened to m h
  IsHome-append to (selected addr b) h = h
  IsHome-append to (guarded addr b) h = h
  IsHome-append to (dialing addr b) h = h
  IsHome-append to (pooled addr b) h = h
  IsHome-append to (leaving addr b) h = h
  IsHome-append to over h = h

-- The exchange after a pop has what was handed out.
pub after_pop-IsHome :
    (opened : List SocketAddr) (closed : ℕ → Bool) (addr : SocketAddr) (b : SharedBackend)
    (o : Option ℕ)
    → Handed (λ m. get_elem? opened m ≡ some addr) closed o
    → IsHome opened (after_pop addr b o)
after_pop-IsHome opened closed addr b none h = tt
after_pop-IsHome opened closed addr b (some m) h = h

pub holds-after_pop :
    (n : ℕ) (addr : SocketAddr) (b : SharedBackend) (o : Option ℕ)
    → holds n (after_pop addr b o) ≡ one n o
holds-after_pop n addr b none = refl
holds-after_pop n addr b (some m) = refl
