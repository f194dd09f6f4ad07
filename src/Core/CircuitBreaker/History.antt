-- ===== src/Core/CircuitBreaker/History.antt =====
-- The breaker against a specification that looks at the whole history of outcomes.
use vortex_proxy.Prelude.{
  ℕ, suc, ◌+◌, ◌≤◌, ◌<◌, ◌≡◌, refl, List, [], ◌∷◌, arith, ltb, if◌then◌else◌, u64_mod, length,
}
use vortex_proxy.Core.CircuitBreaker.{
  CircuitState, closed, open_circuit, half_open, CircuitBreaker, new, state, record_success,
  record_failure, failure_threshold, reset_timeout_secs,
}

pub data Outcome : Type 0 where
  success : Outcome
  failure : ℕ → Outcome

abbrev pub record_outcome : CircuitBreaker → Outcome → CircuitBreaker
record_outcome cb success = record_success cb
record_outcome cb (failure now) = record_failure cb now

-- The breaker after a history, whose head is the latest outcome.
unfoldable pub after : List Outcome → CircuitBreaker
after [] = new
after (o ∷ h) = record_outcome (after h) o

-- How many requests have failed since the last success.
abbrev pub streak : List Outcome → ℕ
streak [] = 0
streak (success ∷ h) = 0
streak (failure t ∷ h) = suc (streak h)

-- When the latest request failed, if one did after the last success.
abbrev pub failed_at : List Outcome → ℕ
failed_at [] = 0
failed_at (success ∷ h) = 0
failed_at (failure t ∷ h) = t

abbrev pub Stamps : List Outcome → Type 0
Stamps [] = Unit
Stamps (success ∷ h) = Stamps h
Stamps (failure t ∷ h) = (t + reset_timeout_secs < u64_mod) × Stamps h

abbrev pub spec_state : List Outcome → ℕ → CircuitState
spec_state h now =
    if ltb (streak h) failure_threshold
    then closed
    else (if ltb (failed_at h + reset_timeout_secs) now then half_open else open_circuit)

streak-le-length : (h : List Outcome) → streak h ≤ length h
streak-le-length [] = omega arith
streak-le-length (success ∷ h) = omega arith
streak-le-length (failure t ∷ h) = omega (arith, streak-le-length h)

failures-after : (h : List Outcome) → length h < u64_mod → (after h).failures ≡ streak h
unfolding after new record_success record_failure
failures-after [] fits = refl
failures-after (success ∷ h) fits = refl
failures-after (failure t ∷ h) fits =
    ground (arith, failures-after h (omega arith), streak-le-length h)

last_failure_time-after :
    (h : List Outcome)
    → length h < u64_mod
    → failure_threshold ≤ streak h
    → (after h).last_failure_time ≡ failed_at h
unfolding after new record_success record_failure
last_failure_time-after [] fits many = absurd (omega arith)
last_failure_time-after (success ∷ h) fits many = absurd (omega arith)
last_failure_time-after (failure t ∷ h) fits many =
    ground (arith, failures-after h (omega arith), streak-le-length h)

failed_at-fits : (h : List Outcome) → Stamps h → failed_at h + reset_timeout_secs < u64_mod
failed_at-fits [] s = omega arith
failed_at-fits (success ∷ h) s = omega arith
failed_at-fits (failure t ∷ h) s = s.0

-- After any history of fewer than 2 ^ 64 outcomes whose failure times do not overflow, the state is
-- the one that the history calls for: closed while fewer than five requests have failed since the
-- last success, and otherwise half-open once more than thirty seconds have passed since the latest
-- failure, and open until then.
pub state-after :
    (h : List Outcome) (now : ℕ)
    → length h < u64_mod
    → Stamps h
    → state (after h) now ≡ spec_state h now
unfolding state
state-after h now fits s =
    ground (arith, failures-after h fits, last_failure_time-after h fits, failed_at-fits h s)
