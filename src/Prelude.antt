-- ===== src/Prelude.antt =====
-- The names that the other modules share: the libraries', passed on, and those of the children.
mod Tests
mod Lists
mod Places
mod Std
mod Selection
mod Sorting
mod Bytes
pub use Tests.*
pub use Lists.*
pub use Places.*
unfoldable pub use Std.*
pub use Selection.*
pub use Sorting.*
unfoldable pub use Bytes.*
pub use Prim.Native.Nat.{ℕ, zero, suc, ◌+◌, ◌-◌, ◌*◌, ◌/◌, ◌%◌, ◌^◌, ◌≤◌, ◌<◌}
pub use mathlib.Core.Path.{◌≡◌, refl, sym, ap, ◌∙◌, subst}
pub use mathlib.Core.Logic.{◌≢◌, ◌↔◌, ◌⊎◌, inl, inr}
pub use mathlib.Core.Bool.{Bool, true, false, not, ◌&&◌, ◌||◌}
pub use mathlib.Core.Option.{Option, none, some}
pub use mathlib.Core.List.{List, [], ◌∷◌, ◌++◌, map, foldl}
pub use native.Mathlib.Omega.{arith}
unfoldable pub use native.Mathlib.Decide.{ℕ_discrete}

-- A family indexed by threads or pointers, with the value at `i` replaced.
abbrev pub update {ℓ} : {A : Type ℓ} → (ℕ → A) → ℕ → A → ℕ → A
update f i a j = if i == j then a else f j

-- Machine words: every unsigned operation of the program that can wrap does so at this modulus.
abbrev pub u64_mod : ℕ
u64_mod = 2 ^ 64

-- `fetch_add(1)` and `fetch_sub(1)` on an `AtomicU64` or a 64-bit `AtomicUsize`; both wrap.
abbrev pub incr64 : ℕ → ℕ
incr64 n = (n + 1) % u64_mod

abbrev pub decr64 : ℕ → ℕ
decr64 n = (n + u64_mod - 1) % u64_mod
