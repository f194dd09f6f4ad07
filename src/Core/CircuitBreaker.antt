-- ===== src/Core/CircuitBreaker.antt =====
-- vortex-core/src/domain/circuit_breaker.rs. The clock is an argument: the seconds since the epoch
-- that `SystemTime::now()` gives. Both counters are 64-bit words.
pub mod History
pub mod Recovery
pub mod Concurrent
mod Tests
use vortex_proxy.Prelude.{ℕ, ◌+◌, ◌%◌, Bool, true, false, ltb, leb, if◌then◌else◌, u64_mod, incr64}

abbrev pub failure_threshold : ℕ
failure_threshold = 5

abbrev pub reset_timeout_secs : ℕ
reset_timeout_secs = 30

pub data CircuitState : Type 0 where
  closed open_circuit half_open : CircuitState

pub record CircuitBreaker : Type 0 where
  pub failures : ℕ
  pub last_failure_time : ℕ

-- `new` and `default`.
unfoldable pub new : CircuitBreaker
new = record { failures = 0; last_failure_time = 0 }

-- `last_failure + RESET_TIMEOUT_SECS` is a `u64` sum.
unfoldable pub state : CircuitBreaker → ℕ → CircuitState
state cb now =
    if ltb cb.failures failure_threshold
    then closed
    else (if ltb ((cb.last_failure_time + reset_timeout_secs) % u64_mod) now
        then half_open
        else open_circuit)

unfoldable pub record_success : CircuitBreaker → CircuitBreaker
record_success cb = record { failures = 0; last_failure_time = 0 }

-- `fetch_add` returns the old count; the clock is read only when the threshold is met.
unfoldable pub record_failure : CircuitBreaker → ℕ → CircuitBreaker
record_failure cb now =
    let counted = record cb { failures = incr64 cb.failures } in
    if leb failure_threshold (incr64 cb.failures)
    then record counted { last_failure_time = now }
    else counted

unfoldable pub failure_count : CircuitBreaker → ℕ
failure_count cb = cb.failures

-- `matches!(self.state(), CircuitState::Open)`
unfoldable pub is_open : CircuitBreaker → ℕ → Bool
unfolding state
is_open cb now = elim (state cb now) [ open_circuit ↦ true | _ ↦ false ]
