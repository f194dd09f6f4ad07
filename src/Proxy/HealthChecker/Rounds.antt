-- ===== src/Proxy/HealthChecker/Rounds.antt =====
-- What a round of probes leaves.
use vortex_proxy.Prelude.{
  ℕ, ◌≡◌, refl, sym, ap, ◌∙◌, ◌==◌, Bool, true, false, Bool-cases, inl, inr, some, List, [], ◌∷◌,
  ◌++◌, arith, if◌then◌else◌, Has,
}
use vortex_proxy.Float.{Float}
use vortex_proxy.Net.{SocketAddr}
use vortex_proxy.Core.ArcSwap.{ArcSwap}
use vortex_proxy.Core.Backend.{Backend, SharedBackend, Heap, is_healthy, set_healthy}
use vortex_proxy.Core.Routing.{RoutingTable, snapshot}
use vortex_proxy.Core.Selector.{select_best_backend}
use vortex_proxy.Core.Selector.Choice.{select_best_backend-IsUsable}
use vortex_proxy.Proxy.HealthChecker.{differs, probe, probe_all, check_round, health_checker}

abbrev pub is_listed : SharedBackend → List SharedBackend → Bool
is_listed j [] = false
is_listed j (b ∷ bs) = if b == j then true else is_listed j bs

Has-is_listed : (j : SharedBackend) (bs : List SharedBackend) → Has j bs → is_listed j bs ≡ true
Has-is_listed j [] h = absurd h
Has-is_listed j (b ∷ bs) (inl e) = ground (arith, e)
Has-is_listed j (b ∷ bs) (inr there) = ground (arith, Has-is_listed j bs there)

module _ {ℓ} {F : Type ℓ} (connects : SocketAddr → Bool) where
  -- A backend with the health that a probe finds.
  abbrev pub probed : Backend F → Backend F
  probed x = record x { healthy = connects x.addr }

  same_health : (x : Backend F) → differs (connects x.addr) x.healthy ≡ false → probed x ≡ x
  same_health x h =
      let e : connects x.addr ≡ x.healthy = ground (arith, h) in
      ap (λ b. record x { healthy = b }) e

  probe-heap :
      (h : Heap F) (b j : SharedBackend)
      → probe connects h b j ≡ (if b == j then probed (h j) else h j)
  unfolding probe is_healthy set_healthy
  probe-heap h b j = elim (Bool-cases (differs (connects (h b).addr) (h b).healthy)) [
    | inl e ↦ ground (arith, e)
    | inr e ↦ ground (arith, e, same_health (h b) e)
  ]

  probe_all-heap :
      (h : Heap F) (bs : List SharedBackend) (j : SharedBackend)
      → probe_all connects h bs j ≡ (if is_listed j bs then probed (h j) else h j)
  unfolding probe_all
  probe_all-heap h [] j = refl
  probe_all-heap h (b ∷ bs) j =
      ground (arith, probe_all-heap (probe connects h b) bs j, probe-heap h b j)

module _ {ℓ} (A : ArcSwap (List SharedBackend)) {F : Type ℓ} (t : RoutingTable A) where
  -- A round leaves every backend of the table healthy exactly if it took the connection, with nothing
  -- else of it changed, and every other backend as it was, whichever are listed more than once.
  pub check_round-heap :
      (h : Heap F) (connects : SocketAddr → Bool) (j : SharedBackend)
      → check_round A t h connects j
        ≡ (if is_listed j (snapshot A t) then probed connects (h j) else h j)
  unfolding check_round
  check_round-heap h connects j = probe_all-heap connects h (snapshot A t) j

  addr-check_round :
      (h : Heap F) (connects : SocketAddr → Bool) (b : SharedBackend)
      → (check_round A t h connects b).addr ≡ (h b).addr
  addr-check_round h connects b = ground (arith, check_round-heap h connects b)

  healthy-check_round :
      (h : Heap F) (connects : SocketAddr → Bool) (b : SharedBackend)
      → Has b (snapshot A t)
      → is_healthy (check_round A t h connects b) ≡ connects (h b).addr
  unfolding is_healthy
  healthy-check_round h connects b there =
      ground (arith, check_round-heap h connects b, Has-is_listed b (snapshot A t) there)

  -- After any rounds, the last of which is this one, a backend of the table that did not take the
  -- connection is not selected.
  pub health_checker-select :
      ⦃f : Float F⦄ (h : Heap F) (rounds : List (SocketAddr → Bool)) (connects : SocketAddr → Bool)
      (now : ℕ) (b : SharedBackend)
      → select_best_backend A (health_checker A t h (rounds ++ connects ∷ [])) now t ≡ some b
      → connects (h b).addr ≡ true
  unfolding health_checker
  health_checker-select h [] connects now b e =
      let (there, (healthy, closed)) =
        select_best_backend-IsUsable A (check_round A t h connects) now t e in
      sym (healthy-check_round h connects b there) ∙ healthy
  health_checker-select h (r ∷ rounds) connects now b e =
      ap connects (sym (addr-check_round h r b))
      ∙ health_checker-select (check_round A t h r) rounds connects now b e
