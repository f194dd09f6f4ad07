-- ===== src/Core/CircuitBreaker/Recovery.antt =====
-- What a breaker of circuit_breaker.rs does around its timeout.
use vortex_proxy.Prelude.{ℕ, ◌+◌, ◌<◌, ◌≡◌, ◌↔◌, true, arith, leb, if◌then◌else◌, u64_mod}
use vortex_proxy.Core.CircuitBreaker.{
  closed, open_circuit, half_open, CircuitBreaker, state, record_success, record_failure, is_open,
  reset_timeout_secs,
}

module _ (cb : CircuitBreaker) (now later : ℕ) where
  -- When the breaker is half-open, and neither its counter nor the sum of the clock and the timeout
  -- is about to overflow, the outcome of a request decides what follows: a failure keeps the
  -- circuit open for thirty more seconds and half-open after them, and a success closes it.
  pub half_open_probe :
      cb.failures + 1 < u64_mod
      → now + reset_timeout_secs < u64_mod
      → state cb now ≡ half_open
      → (state (record_failure cb now) later
          ≡ (if leb later (now + reset_timeout_secs) then open_circuit else half_open))
        × (state (record_success cb) later ≡ closed)
  unfolding state record_failure record_success
  half_open_probe room fits half = (ground arith, ground arith)

-- `is_open` holds in the open state alone.
is_open_iff :
    (cb : CircuitBreaker) (now : ℕ) → (is_open cb now ≡ true) ↔ (state cb now ≡ open_circuit)
unfolding is_open
is_open_iff cb now = (λ h. ground arith, λ h. ground arith)
