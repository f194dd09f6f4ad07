-- ===== src/Filters/RedisStore/Burst.antt =====
-- What the script does for a key that Redis does not have.
use native.Mathlib.Nat.{mul-le-mul_left, le_of_mul-le-mul_left}
use vortex_proxy.Prelude.{
  ℕ, ◌+◌, ◌-◌, ◌*◌, ◌/◌, ◌≤◌, ◌<◌, ◌≡◌, ltb, leb, ◌==◌, true, false, Option, none, some, Bool-cases,
  inl, inr, Text, arith, subst,
}
use vortex_proxy.Core.RateLimit.{RateLimitResult}
use vortex_proxy.Filters.RedisStore.{Redis, tat_at, script, RedisStore, check_rate_limit}

the_le : (m n : ℕ) → ltb n m ≡ false → m ≤ n
the_le m n h = ground arith

-- `e * cost` fits `e * limit` exactly when the cost is within the limit.
scaled-le : (e cost limit : ℕ) → 0 < e → ltb (e * limit) (e * cost) ≡ ltb limit cost
scaled-le e cost limit h = elim (Bool-cases (ltb (e * limit) (e * cost))) [
  | inl over ↦ elim (Bool-cases (ltb limit cost)) [
    | inl p ↦ ground (arith, over, p)
    | inr p ↦ absurd (ground (arith, over, mul-le-mul_left e (the_le cost limit p)))
  ]
  | inr within ↦
      ground (arith, within, le_of_mul-le-mul_left {k = e} (the_le (e * cost) (e * limit) within) h)
]

-- An error for a cost of 0, and otherwise a result that allows the costs within the limit.
abbrev pub FreshAnswer : ℕ → ℕ → Option RateLimitResult → Type 0
FreshAnswer limit cost none = cost ≡ 0
FreshAnswer limit cost (some res) = (0 < cost) × (res.allowed ≡ leb cost limit)

module _ (R : Redis) (client : RedisStore R) (key : Text) (limit period_ms : ℕ) where
  abbrev emission : ℕ
  emission = period_ms / limit

  abbrev fresh_tat : ℕ → ℕ
  fresh_tat cost = client.now_ms + emission * cost

  tat_at-fresh :
      R.get client.state key client.now_ms ≡ none
      → tat_at R client.state key client.now_ms ≡ client.now_ms
  unfolding tat_at
  tat_at-fresh fresh = ground (arith, fresh)

  -- The test of the script, for a key that Redis does not have.
  over_limit :
      (cost : ℕ)
      → 0 < emission
      → emission * limit ≡ period_ms
      → ltb client.now_ms (fresh_tat cost - period_ms) ≡ ltb limit cost
  over_limit cost positive divides = ground (arith, scaled-le emission cost limit positive, divides)

  set-nothing :
      (cost : ℕ)
      → cost ≡ 0
      → R.set_px client.state key (fresh_tat cost) (fresh_tat cost - client.now_ms) client.now_ms
        ≡ none
  set-nothing cost idle =
      subst (λ px. R.set_px client.state key (fresh_tat cost) px client.now_ms ≡ none)
        (ground (arith, idle)) (R.set_zero client.state key (fresh_tat cost) client.now_ms)

  set-something :
      (cost : ℕ)
      → 0 < emission
      → 0 < cost
      → (s' : R.State) × (R.set_px client.state key
            (fresh_tat cost)
            (fresh_tat cost - client.now_ms)
            client.now_ms
          ≡ some s')
  set-something cost positive busy =
      R.set_positive client.state key (fresh_tat cost) (fresh_tat cost - client.now_ms)
        client.now_ms (ground (arith, busy, scaled-le emission cost 0 positive))

  -- For a key that Redis, which can be reached, does not have, with a limit that divides the period: a
  -- request of cost 0 is answered by an error, since SET refuses an expiry of 0; and any other is
  -- answered by a result, which allows it exactly when it costs no more than the limit.
  pub check_rate_limit-fresh :
      (cost : ℕ)
      → client.reachable ≡ true
      → R.get client.state key client.now_ms ≡ none
      → 0 < period_ms / limit
      → period_ms / limit * limit ≡ period_ms
      → FreshAnswer limit cost (check_rate_limit R client key limit period_ms cost).1
  unfolding check_rate_limit script tat_at
  check_rate_limit-fresh cost up fresh positive divides =
      let over = over_limit cost positive divides in
      elim (Bool-cases (ltb limit cost)) [
        | inl e ↦ rw (up, fresh, over, e) (ground arith, ground (arith, e))
        | inr e ↦
            rw (up, fresh, over, e)
              (elim (Bool-cases (cost == 0)) [
                | inl idle ↦ rw (set-nothing cost (ground arith)) (ground arith)
                | inr busy ↦
                    let (s', o) = set-something cost positive (ground arith) in
                    rw o (ground arith, ground (arith, e))
              ])
      ]
