-- ===== src/Filters/RedisStore.antt =====
-- vortex-filters/src/rate_limiter/redis_store.rs: the Lua script, and the call around it. Redis is an
-- interface with one clock, which is also the proxy's. The script's numbers are those of Lua; here they
-- are natural numbers of milliseconds, which is what they are where the limit divides the period, as in
-- the program's one call (1000 in 60,000 ms): there the emission interval is a whole number. `allow_at`
-- and `remaining` may be negative in Lua; the script only compares them with numbers that are not, and
-- a subtraction that stops at 0 gives the same answers.
pub mod Rate
pub mod Burst
pub mod Sample
mod Tests
use vortex_proxy.Prelude.{
  ℕ, ◌+◌, ◌-◌, ◌*◌, ◌/◌, ◌≤◌, ◌<◌, ◌≡◌, ◌≢◌, ltb, leb, ◌==◌, Bool, true, false, Option, none, some,
  if◌then◌else◌, Text,
}
use vortex_proxy.Outcome.{Outcome, ok, unwrap_or_panic, ◌>>=◌}
use vortex_proxy.Core.RateLimit.{RateLimitResult, RateStore}

-- GET, and SET with PX: the value is there until that many milliseconds have passed, and 0 is an error.
pub record Redis : Type 1 where
  pub State : Type 0
  pub get : State → Text → ℕ → Option ℕ
  pub set_px : State → Text → ℕ → ℕ → ℕ → Option State
  pub set_zero : (s : State) (key : Text) (value now : ℕ) → set_px s key value 0 now ≡ none
  pub set_positive :
      (s : State) (key : Text) (value px now : ℕ)
      → 0 < px
      → (s' : State) × (set_px s key value px now ≡ some s')
  pub get_before :
      (s s' : State) (key : Text) (value px now t : ℕ)
      → set_px s key value px now ≡ some s'
      → t < now + px
      → get s' key t ≡ some value
  pub get_other :
      (s s' : State) (key other : Text) (value px now t : ℕ)
      → set_px s key value px now ≡ some s'
      → other ≢ key
      → get s' other t ≡ get s other t

module _ (R : Redis) where
  abbrev pub max : ℕ → ℕ → ℕ
  max a b = if leb a b then b else a

  -- `tat` of the script, once it is at least now.
  abbrev pub or_now : Option ℕ → ℕ → ℕ
  or_now none now = now
  or_now (some tat) now = max tat now

  unfoldable pub tat_at : R.State → Text → ℕ → ℕ
  tat_at s key now = or_now (R.get s key now) now

  -- The requests that the time up to a TAT leaves in the period.
  unfoldable pub remaining_at : ℕ → ℕ → ℕ → ℕ → ℕ
  remaining_at period_ms emission_interval tat now = (period_ms - (tat - now)) / emission_interval

  abbrev pub Answer : Type 0
  Answer = ℕ × ℕ × ℕ

  abbrev pub stored : Option R.State → Answer → Option (R.State × Answer)
  stored none answer = none
  stored (some s) answer = some (s, answer)

  -- The script; none where SET fails.
  unfoldable pub script : R.State → Text → ℕ → ℕ → ℕ → ℕ → Option (R.State × Answer)
  unfolding tat_at remaining_at
  script s key limit period_ms now_ms cost =
      let emission_interval = period_ms / limit in
      let tat = tat_at s key now_ms in
      let new_tat = tat + emission_interval * cost in
      let allow_at = new_tat - period_ms in
      if ltb now_ms allow_at
      then some (s, (0, remaining_at period_ms emission_interval tat now_ms, tat - now_ms))
      else stored (R.set_px s key new_tat (new_tat - now_ms) now_ms)
          (1, remaining_at period_ms emission_interval new_tat now_ms, new_tat - now_ms)

  -- Redis, the clock, and whether the pool gives out a connection.
  pub record RedisStore : Type 0 where
    pub state : R.State
    pub now_ms : ℕ
    pub reachable : Bool

  abbrev pub result_of :
      RedisStore → Option (R.State × Answer) → RedisStore × Option RateLimitResult
  result_of client none = (client, none)
  result_of client (some (s, (flag, remaining, reset))) = (
    record client { state = s },
    some (record { allowed = flag == 1; remaining = remaining; reset_after = reset }),
  )

  unfoldable pub check_rate_limit :
      RedisStore → Text → ℕ → ℕ → ℕ → RedisStore × Option RateLimitResult
  unfolding script
  check_rate_limit client key limit period_ms cost =
      if client.reachable
      then result_of client (script client.state key limit period_ms client.now_ms cost)
      else (client, none)

  unfoldable pub redis_store : RateStore RedisStore
  unfolding check_rate_limit
  redis_store = record { check_rate_limit = check_rate_limit }

  -- `RedisStore::new`: `opens` is the state behind the pool that a URL makes, and a URL that makes none
  -- panics.
  unfoldable pub new : (Text → Option R.State) → Text → ℕ → Bool → Outcome RedisStore
  new opens redis_url now_ms reachable = unwrap_or_panic (opens redis_url) >>= λ state.
      ok (record { state = state; now_ms = now_ms; reachable = reachable })
