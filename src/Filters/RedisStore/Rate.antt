-- ===== src/Filters/RedisStore/Rate.antt =====
-- How much the script allows over time.
use vortex_proxy.Prelude.{
  ℕ, ◌+◌, ◌-◌, ◌*◌, ◌/◌, ◌≤◌, ◌<◌, ap, ◌∙◌, ◌&&◌, ◌≡◌, refl, ltb, ◌==◌, Option, none, some,
  Option-cases, Bool-cases, inl, inr, ◌⊎◌, ◌≢◌, text_eq, text_eq_refl, eq_of_text_eq, subst, sym,
  if◌then◌else◌, Bool, false, not, Text, List, [], ◌∷◌, arith,
}
use native.Mathlib.Decide.{dec_lt}
use native.Mathlib.Nat.{mul-div_cancel}
use vortex_proxy.Filters.RedisStore.{Redis, or_now, tat_at, script, Answer}

-- A request, by its time, its key and its cost.
pub record Arrival : Type 0 where
  pub at : ℕ
  pub key : Text
  pub cost : ℕ

abbrev pub IsAscending : ℕ → List Arrival → Type 0
IsAscending t [] = Unit
IsAscending t (a ∷ l) = (t ≤ a.at) × IsAscending a.at l

abbrev pub last : ℕ → List Arrival → ℕ
last t [] = t
last t (a ∷ l) = last a.at l

le-last : (t : ℕ) (l : List Arrival) → IsAscending t l → t ≤ last t l
le-last t [] up = omega arith
le-last t (a ∷ l) (h, up) = omega (arith, h, le-last a.at l up)

le-or_now : (R : Redis) (o : Option ℕ) (now : ℕ) → now ≤ or_now R o now
le-or_now R none now = omega arith
le-or_now R (some tat) now = ground arith

-- Redis after a request; a script that fails leaves it as it was.
abbrev pub state_after : (R : Redis) → R.State → Option (R.State × Answer R) → R.State
state_after R s none = s
state_after R s (some (s', answer)) = s'

-- Whether an answer denies the request; a script that fails does not.
abbrev pub denies : (R : Redis) → Option (R.State × Answer R) → Bool
denies R none = false
denies R (some (s', (flag, remaining, reset))) = not (flag == 1)

-- Whether an answer allows the request.
abbrev pub allows : (R : Redis) → Option (R.State × Answer R) → Bool
allows R none = false
allows R (some (s', (flag, remaining, reset))) = flag == 1

module _ (R : Redis) (limit period_ms : ℕ) where
  -- The emission time that is granted by an answer that allows the request.
  abbrev granted : ℕ → Option (R.State × Answer R) → ℕ
  granted cost none = 0
  granted cost (some (s', (flag, remaining, reset))) =
      if flag == 1 then period_ms / limit * cost else 0

  -- The TAT after a request, if it is allowed.
  abbrev next_tat : R.State → Arrival → ℕ
  next_tat s a = tat_at R s a.key a.at + period_ms / limit * a.cost

  abbrev pub outcome : R.State → Arrival → Option (R.State × Answer R)
  outcome s a = script R s a.key limit period_ms a.at a.cost

  -- The request is not allowed, or the script fails, or the new TAT is stored.
  data Case (s : R.State) (a : Arrival) : Option (R.State × Answer R) → Type 0 where
    denied : (remaining reset : ℕ) → Case s a (some (s, (0, remaining, reset)))
    failed : R.set_px s a.key (next_tat s a) (next_tat s a - a.at) a.at ≡ none → Case s a none
    allowed :
        (s' : R.State) (remaining reset : ℕ)
        → R.set_px s a.key (next_tat s a) (next_tat s a - a.at) a.at ≡ some s'
        → next_tat s a ≤ a.at + period_ms
        → Case s a (some (s', (1, remaining, reset)))

  script-Case : (s : R.State) (a : Arrival) → Case s a (outcome s a)
  unfolding script
  script-Case s a = elim (Bool-cases (ltb a.at (next_tat s a - period_ms))) [
    | inl e ↦ rw e (denied _ _)
    | inr e ↦
        rw e (elim (Option-cases (R.set_px s a.key (next_tat s a) (next_tat s a - a.at) a.at)) [
          | inl o ↦ rw o (failed o)
          | inr (s', o) ↦ rw o (allowed s' _ _ o (ground arith))
        ])
  ]

  granted-denies-Case :
      (s : R.State) (a : Arrival) (r : Option (R.State × Answer R))
      → Case s a r
      → granted a.cost r ≡ (if denies R r then 0 else period_ms / limit * a.cost)
  granted-denies-Case s a r (denied remaining reset) = refl
  granted-denies-Case s a r (allowed s' remaining reset o fits) = refl
  granted-denies-Case s a r (failed o) = elim (dec_lt 0 (next_tat s a - a.at)) [
    | yes positive ↦
        let (s', stored) =
          R.set_positive s a.key (next_tat s a) (next_tat s a - a.at) a.at positive in
        cc (o, stored)
    | no over ↦
        let ahead = le-or_now R (R.get s a.key a.at) a.at in
        unfold tat_at in omega (arith, over, ahead)
  ]

  -- What is not denied is granted: a script fails only for a request that costs nothing.
  pub granted-denies :
      (s : R.State) (a : Arrival)
      → granted a.cost (outcome s a)
        ≡ (if denies R (outcome s a) then 0 else period_ms / limit * a.cost)
  granted-denies s a = granted-denies-Case s a (outcome s a) (script-Case s a)

  module _ (key : Text) where
    -- The emission time that a request takes from `key`.
    abbrev pub share : Arrival → Option (R.State × Answer R) → ℕ
    share a r = if text_eq key a.key then granted a.cost r else 0

    -- The emission time that a run grants the requests for `key` in all.
    unfoldable pub total_granted : R.State → List Arrival → ℕ
    total_granted s [] = 0
    total_granted s (a ∷ l) = let r = outcome s a in share a r + total_granted (state_after R s r) l

    -- From `t` on, a request for `key` finds a TAT of at least `base`.
    IsAhead : R.State → ℕ → ℕ → Type 0
    IsAhead s base t = (u : ℕ) → t ≤ u → base ≤ tat_at R s key u

    set-IsAhead :
        (s s' : R.State) (value now : ℕ)
        → R.set_px s key value (value - now) now ≡ some s'
        → IsAhead s' value now
    unfolding IsAhead tat_at
    set-IsAhead s s' value now e u h = elim (Bool-cases (ltb u value)) [
      | inl early ↦ ground (arith, R.get_before s s' key value (value - now) now u e (ground arith))
      | inr late ↦ ground (arith, late, le-or_now R (R.get s' key u) u)
    ]

    -- Storing under another key changes nothing for this one.
    set_other-IsAhead :
        (s s' : R.State) (other : Text) (value px now base t : ℕ)
        → key ≢ other
        → R.set_px s other value px now ≡ some s'
        → IsAhead s base t
        → IsAhead s' base t
    unfolding IsAhead tat_at
    set_other-IsAhead s s' other value px now base t ne e ahead u h =
        rw (R.get_other s s' other key value px now u e ne) (ahead u h)

    -- A request takes nothing from `key`, or it fits the period ahead of the clock; either way the TAT is
    -- ahead by what it takes.
    IsStep : R.State → Arrival → ℕ → Option (R.State × Answer R) → Type 0
    IsStep s a base r =
        ((share a r ≡ 0) ⊎ (base + share a r ≤ a.at + period_ms))
        × IsAhead (state_after R s r) (base + share a r) a.at

    -- A request that takes nothing and keeps what the next ones find.
    idle :
        (s : R.State) (a : Arrival) (base t : ℕ) (r : Option (R.State × Answer R))
        → share a r ≡ 0
        → t ≤ a.at
        → IsAhead (state_after R s r) base t
        → IsStep s a base r
    unfolding IsStep IsAhead
    idle s a base t r nothing h ahead =
        (inl nothing, λ u later. omega (arith, nothing, ahead u (omega (arith, h, later))))

    step :
        (s : R.State) (a : Arrival) (base t : ℕ) (r : Option (R.State × Answer R))
        → IsAhead s base t
        → t ≤ a.at
        → Case s a r
        → IsStep s a base r
    unfolding IsStep IsAhead
    step s a base t r ahead h (denied remaining reset) = idle s a base t r (ground arith) h ahead
    step s a base t r ahead h (failed o) = idle s a base t r (ground arith) h ahead
    step s a base t r ahead h (allowed s' remaining reset o fits) =
        elim (Bool-cases (text_eq key a.key)) [
          | inl same ↦
              let e = eq_of_text_eq key a.key same in
              let found = subst (λ k. base ≤ tat_at R s k a.at) e (ahead a.at h) in
              let o' =
                subst (λ k. R.set_px s k (next_tat s a) (next_tat s a - a.at) a.at ≡ some s')
                  (sym e) o in
              rw same (
                inr (omega (arith, found, fits)),
                λ u later. omega (arith, found, set-IsAhead s s' (next_tat s a) a.at o' u later),
              )
          | inr other ↦ idle s a base t r (rw other refl) h (
              set_other-IsAhead s s' a.key (next_tat s a) (next_tat s a - a.at) a.at base t
                (λ e. ground (arith, other, e, text_eq_refl a.key)) o ahead)
        ]

    total_granted-ahead :
        (s : R.State) (l : List Arrival) (base t : ℕ)
        → IsAhead s base t
        → IsAscending t l
        → (total_granted s l ≡ 0) ⊎ (base + total_granted s l ≤ last t l + period_ms)
    unfolding total_granted IsStep
    total_granted-ahead s [] base t ahead up = inl refl
    total_granted-ahead s (a ∷ l) base t ahead (h, up) =
        let r = outcome s a in
        let (now, next) = step s a base t r ahead h (script-Case s a) in
        let later = le-last a.at l up in
        elim (total_granted-ahead (state_after R s r) l (base + share a r) a.at next up) [
          | inr rest ↦ inr (omega (arith, rest))
          | inl none_left ↦ elim now [
            | inl nothing ↦ inl (omega (arith, nothing, none_left))
            | inr fits ↦ inr (omega (arith, fits, none_left, later))
          ]
        ]

    -- Whatever Redis has stored, and whatever requests for any keys come from the time `t` on, with their
    -- times in order: the emission time that the script grants those for one key is at most the time
    -- from `t` to the last request and one period.
    pub total_granted-rate :
        (s : R.State) (l : List Arrival) (t : ℕ)
        → IsAscending t l
        → total_granted s l ≤ (last t l - t) + period_ms
    unfolding IsAhead tat_at
    total_granted-rate s l t up =
        let later = le-last t l up in
        elim (total_granted-ahead s l t t (λ u h. omega (arith, h, le-or_now R (R.get s key u) u))
          up) [ inl nothing ↦ omega (arith, nothing) | inr fits ↦ omega (arith, fits, later) ]

    -- What the requests for `key` that the script allows cost in all.
    unfoldable pub total_allowed : R.State → List Arrival → ℕ
    total_allowed s [] = 0
    total_allowed s (a ∷ l) =
        let r = outcome s a in
        (if text_eq key a.key && allows R r then a.cost else 0)
        + total_allowed (state_after R s r) l

    granted-allows :
        (cost : ℕ) (r : Option (R.State × Answer R))
        → granted cost r ≡ period_ms / limit * (if allows R r then cost else 0)
    granted-allows cost none = omega arith
    granted-allows cost (some (s', (flag, remaining, reset))) = ground arith

    total_granted-total_allowed :
        (s : R.State) (l : List Arrival) → total_granted s l ≡ period_ms / limit * total_allowed s l
    unfolding total_granted total_allowed
    total_granted-total_allowed s [] = omega arith
    total_granted-total_allowed s (a ∷ l) =
        let r = outcome s a in
        let rest = total_granted-total_allowed (state_after R s r) l in
        let here = granted-allows a.cost r in
        elim (Bool-cases (text_eq key a.key)) [
          | inl same ↦ ground (arith, same, rest, here)
          | inr other ↦ ground (arith, other, rest, here)
        ]

    -- Where the limit divides the period, so that the emission interval is a whole number of
    -- milliseconds: whatever Redis has stored, and whatever requests for any keys come from the time `t`
    -- on, with their times in order, those for one key that the script allows cost in all at most the
    -- limit, and one more for each emission interval from `t` to the last request.
    pub total_allowed-rate :
        (s : R.State) (l : List Arrival) (t interval : ℕ)
        → 0 < limit
        → period_ms ≡ interval * limit
        → IsAscending t l
        → interval * total_allowed s l ≤ (last t l - t) + interval * limit
    total_allowed-rate s l t interval positive divides up =
        let whole : period_ms / limit ≡ interval =
          ap (λ n. n / limit) divides ∙ mul-div_cancel interval positive in
        omega (
          arith,
          subst (λ n. total_granted s l ≡ n * total_allowed s l) whole
              (total_granted-total_allowed s l),
          total_granted-rate s l t up,
          divides,
        )
