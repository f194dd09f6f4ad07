-- ===== src/Core/Ewma/Active.antt =====
-- The in-flight counter of ewma.rs and its RAII guards.
use vortex_proxy.Prelude.{ℕ, ◌+◌, ◌-◌, ◌<◌, ◌≡◌, refl, List, [], ◌∷◌, arith, length, u64_mod}
use vortex_proxy.Float.{Float}
use vortex_proxy.Core.Ewma.{PeakEwma, increment_active, drop_guard}

pub data GuardEvent : Type 0 where
  acquired dropped : GuardEvent

-- From `live` guards, every drop is of a guard that is there.
abbrev pub IsGuarded : ℕ → List GuardEvent → Type 0
IsGuarded live [] = Unit
IsGuarded live (acquired ∷ es) = IsGuarded (live + 1) es
IsGuarded live (dropped ∷ es) = (0 < live) × IsGuarded (live - 1) es

abbrev pub live_after : ℕ → List GuardEvent → ℕ
live_after live [] = live
live_after live (acquired ∷ es) = live_after (live + 1) es
live_after live (dropped ∷ es) = live_after (live - 1) es

module _ {ℓ} {F : Type ℓ} ⦃f : Float F⦄ where
  unfoldable pub run_guards : PeakEwma F → List GuardEvent → PeakEwma F
  run_guards e [] = e
  run_guards e (acquired ∷ es) = run_guards (increment_active e) es
  run_guards e (dropped ∷ es) = run_guards (drop_guard e) es

  -- However the guards of a node are taken and dropped, as long as fewer than 2 ^ 64 are ever taken,
  -- the counter is the number of guards that are alive, and the average is untouched.
  pub active_requests-run_guards :
      (live : ℕ) (es : List GuardEvent) (e : PeakEwma F)
      → e.active_requests ≡ live
      → live + length es < u64_mod
      → IsGuarded live es
      → ((run_guards e es).active_requests ≡ live_after live es) × ((run_guards e es).ewma ≡ e.ewma)
  unfolding run_guards increment_active drop_guard
  active_requests-run_guards live [] e at fits g = (at, refl)
  active_requests-run_guards live (acquired ∷ es) e at fits g =
      active_requests-run_guards (live + 1) es (increment_active e) (omega arith) (omega arith) g
  active_requests-run_guards live (dropped ∷ es) e at fits (some_live, g) =
      active_requests-run_guards (live - 1) es (drop_guard e) (omega arith) (omega arith) g
