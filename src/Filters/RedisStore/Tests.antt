-- ===== src/Filters/RedisStore/Tests.antt =====
-- The script at concrete times, on a Redis that keeps each key with its expiry.
use vortex_proxy.Prelude.{
  ℕ, ◌+◌, ◌-◌, ◌*◌, ◌≤◌, ◌≡◌, refl, arith, true, none, some, List, [], ◌∷◌, Text, text_eq, bytes,
}
use vortex_proxy.Filters.RedisStore.{RedisStore, tat_at, remaining_at, script, check_rate_limit}
use vortex_proxy.Filters.RedisStore.Sample.{redis}
use vortex_proxy.Filters.RedisStore.Rate.{
  Arrival, last, total_granted, total_allowed, total_allowed-rate,
}
use vortex_proxy.Filters.RedisStore.Burst.{FreshAnswer, check_rate_limit-fresh}

abbrev client_at : ℕ → RedisStore redis
client_at now = record { state = λ key. none; now_ms = now; reachable = true }

abbrev ip : Text
ip = bytes "ip:10.0.0.9"

program : Unit {0}
unfolding text_eq tat_at remaining_at script check_rate_limit total_granted
program = tt

-- The program's limit: 1000 in 60 s.
burst_and_idle :
    ((check_rate_limit redis (client_at 5000) ip 1000 60000 1).1
      ≡ some (record { allowed = true; remaining = 999; reset_after = 60 }))
    × ((check_rate_limit redis (client_at 5000) ip 1000 60000 0).1 ≡ none)
unfolding program
burst_and_idle = (refl, refl)

abbrev arrivals : List Arrival
arrivals =
    record { at = 5000; key = ip; cost = 900 }
    ∷ record { at = 5000; key = ip; cost = 200 }
    ∷ record { at = 6000; key = bytes "ip:10.0.0.8"; cost = 900 }
    ∷ record { at = 11000; key = ip; cost = 200 }
    ∷ []

-- The second request does not fit the burst, the third is another client's, and the fourth comes 100
-- emission intervals later.
grants : total_granted redis 1000 60000 ip (λ key. none) arrivals ≡ 66000
unfolding program
grants = refl

total_allowed-rate_example :
    60 * total_allowed redis 1000 60000 ip (λ key. none) arrivals
    ≤ (last 5000 arrivals - 5000) + 60 * 1000
total_allowed-rate_example =
    total_allowed-rate redis 1000 60000 ip (λ key. none) arrivals 5000 60 (omega arith)
      (omega arith) (omega arith, (omega arith, (omega arith, (omega arith, tt))))

check_rate_limit-fresh_example :
    FreshAnswer 1000 1001 (check_rate_limit redis (client_at 5000) ip 1000 60000 1001).1
check_rate_limit-fresh_example =
    check_rate_limit-fresh redis (client_at 5000) ip 1000 60000 1001 refl refl (omega arith) refl
