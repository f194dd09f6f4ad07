-- ===== src/Core/CircuitBreaker/Concurrent.antt =====
-- circuit_breaker.rs when any number of threads record outcomes at once: each atomic operation on
-- `failures` and on `last_failure_time` is a step of its own. The log is not in the program: it has
-- the outcomes in the order in which they reached `failures`, the latest first. A thread's reading of
-- the clock is any number; it is chosen with the `fetch_add` before it. The steps come one after the
-- other: `Ordering::Relaxed` allows these orders of the two words, and others.
use vortex_proxy.Prelude.{
  ℕ, zero, suc, ◌+◌, ◌%◌, ◌<◌, ◌≡◌, ◌≢◌, ◌↔◌, refl, List, [], ◌∷◌, arith, leb, update,
  if◌then◌else◌, u64_mod, incr64,
}
use vortex_proxy.Core.CircuitBreaker.{
  closed, open_circuit, half_open, CircuitBreaker, state, record_success, record_failure,
  failure_threshold, reset_timeout_secs,
}
use vortex_proxy.Core.CircuitBreaker.History.{Outcome, success, failure, streak, after}

-- Outside the two functions; between the two stores of `record_success`; in `record_failure` with the
-- threshold met and the clock read, before the store.
pub data Pc : Type 0 where
  idle reset : Pc
  tripped : ℕ → Pc

pub record System : Type 0 where
  pub breaker : CircuitBreaker
  pub pc : ℕ → Pc
  pub log : List Outcome

abbrev pub start : System
start = record {
  breaker = record { failures = 0; last_failure_time = 0 };
  pc = λ _. idle;
  log = [];
}

-- One atomic operation of thread `i`.
abbrev pub store_failures : System → ℕ → System
store_failures s i = record {
  breaker = record s.breaker { failures = 0 };
  pc = update s.pc i reset;
  log = success ∷ s.log;
}

abbrev pub store_no_time : System → ℕ → System
store_no_time s i = record s {
  breaker = record s.breaker { last_failure_time = 0 };
  pc = update s.pc i idle;
}

abbrev pub fetch_add : System → ℕ → ℕ → System
fetch_add s i now = record {
  breaker = record s.breaker { failures = incr64 s.breaker.failures };
  pc =
      update s.pc i
        (if leb failure_threshold (incr64 s.breaker.failures) then tripped now else idle);
  log = failure now ∷ s.log;
}

abbrev pub store_time : System → ℕ → ℕ → System
store_time s i now = record s {
  breaker = record s.breaker { last_failure_time = now };
  pc = update s.pc i idle;
}

pub data Step (s t : System) : Type 0 where
  succeed : (i : ℕ) → s.pc i ≡ idle → t ≡ store_failures s i → Step s t
  clear : (i : ℕ) → s.pc i ≡ reset → t ≡ store_no_time s i → Step s t
  fail : (i now : ℕ) → s.pc i ≡ idle → t ≡ fetch_add s i now → Step s t
  stamp : (i now : ℕ) → s.pc i ≡ tripped now → t ≡ store_time s i now → Step s t

pub data Reach (s : System) : System → Type 0 where
  here : Reach s s
  later : {t u : System} → Reach s t → Step t u → Reach s u

abbrev pub Counted : System → Type 0
Counted s = s.breaker.failures ≡ streak s.log % u64_mod

Step-Counted : (s t : System) → Step s t → Counted s → Counted t
Step-Counted s t (succeed i at e) v = ground (arith, v)
Step-Counted s t (clear i at e) v = ground (arith, v)
Step-Counted s t (fail i now at e) v = ground (arith, v)
Step-Counted s t (stamp i now at e) v = ground (arith, v)

pub Reach-Counted : {s : System} → Reach start s → Counted s
Reach-Counted here = refl
Reach-Counted (later {t = t} {u = u} r st) = Step-Counted t u st (Reach-Counted r)

closed_iff :
    (cb : CircuitBreaker) (now n : ℕ)
    → cb.failures ≡ n
    → (state cb now ≡ closed) ↔ (n < failure_threshold)
unfolding state
closed_iff cb now n e = ground arith

-- In whatever order the atomic operations of any number of threads come, a reading of the state is
-- closed exactly while fewer than five failures have reached the counter since the latest success did
-- (counted modulo 2 ^ 64): no failure is lost or counted twice.
pub closed_after_race :
    {s : System} (now : ℕ)
    → Reach start s
    → (state s.breaker now ≡ closed) ↔ (streak s.log % u64_mod < failure_threshold)
closed_after_race {s} now r = closed_iff s.breaker now (streak s.log % u64_mod) (Reach-Counted r)

-- Thread `j` counts a failure that meets the threshold, and stores its time.
abbrev pub failing_round : System → ℕ → ℕ → System
failing_round s j now = store_time (fetch_add s j now) j now

module _ (i j now : ℕ) where
  -- Thread `i` stores 0 to `failures` and is held up; thread `j` then counts `n` failures.
  abbrev pub counting : System → ℕ → System
  counting s zero = store_failures s i
  counting s (suc n) = fetch_add (counting s n) j now

  -- Four failures below the threshold, the fifth with its time, and then the store of thread `i`.
  abbrev pub raced : System → System
  raced s = store_no_time (failing_round (counting s 4) j now) i

module _ (i j now : ℕ) (apart : i ≢ j) where
  raced-Reach : (s : System) → s.pc i ≡ idle → s.pc j ≡ idle → Reach s (raced i j now s)
  raced-Reach s at_i at_j =
      later
        (later
          (later
            (later
              (later
                (later (later (later here (succeed i at_i refl)) (fail j now (ground arith) refl))
                  (fail j now (ground arith) refl))
                (fail j now (ground arith) refl))
              (fail j now (ground arith) refl))
            (fail j now (ground arith) refl))
          (stamp j now (ground arith) refl))
        (clear i (ground arith) refl)

  -- Two threads that are outside the breaker's functions can run, from any state, so that a success
  -- and five failures are recorded, the failures all at the time `now`, and the breaker is half-open
  -- at that same time with nothing left for the two to store: the success's late store erases the
  -- time of the failure that tripped the breaker. The same outcomes, recorded one after the other in
  -- the order in which they were counted, leave it open. The time is past the first 30 seconds of the
  -- epoch, and does not overflow with the timeout.
  pub trip_lost :
      (s : System)
      → s.pc i ≡ idle
      → s.pc j ≡ idle
      → reset_timeout_secs < now
      → now + reset_timeout_secs < u64_mod
      → Reach s (raced i j now s)
        × ((raced i j now s).pc i ≡ idle)
        × ((raced i j now s).pc j ≡ idle)
        × (state (raced i j now s).breaker now ≡ half_open)
        × (state (after (raced i j now s).log) now ≡ open_circuit)
  unfolding state after record_success record_failure
  trip_lost s at_i at_j late fits =
      (raced-Reach s at_i at_j, ground arith, ground arith, ground arith, ground arith)
