-- ===== src/Outcome.antt =====
-- How a call of the program ends that returns a `Result`: with a value, with an error, or with a panic.
-- What the error says is only ever logged.
use vortex_proxy.Prelude.{◌≡◌, ◌⊎◌, inl, inr, refl, Option, none, some}

pub data Outcome {ℓ} (A : Type ℓ) : Type ℓ where
  ok : A → Outcome A
  err panic : Outcome A

-- The operator `?`, for a call whose panic goes on to the caller too.
infixl 5 ◌>>=◌
abbrev pub ◌>>=◌ {ℓ κ} : {A : Type ℓ} {B : Type κ} → Outcome A → (A → Outcome B) → Outcome B
ok a >>= k = k a
err >>= k = err
panic >>= k = panic

-- A `Result` of a library.
abbrev pub result {ℓ} : {A : Type ℓ} → Option A → Outcome A
result none = err
result (some a) = ok a

-- `unwrap` on an `Option` or a `Result` of a library.
abbrev pub unwrap_or_panic {ℓ} : {A : Type ℓ} → Option A → Outcome A
unwrap_or_panic none = panic
unwrap_or_panic (some a) = ok a

pub Outcome-cases {ℓ} :
    {A : Type ℓ} (o : Outcome A) → ((a : A) × (o ≡ ok a)) ⊎ (o ≡ err) ⊎ (o ≡ panic)
Outcome-cases (ok a) = inl (a, refl)
Outcome-cases err = inr (inl refl)
Outcome-cases panic = inr (inr refl)

-- Inversion of a successful bind.
pub >>=-eq-ok {ℓ κ} :
    {A : Type ℓ} {B : Type κ} (m : Outcome A) (k : A → Outcome B) {b : B}
    → (m >>= k) ≡ ok b
    → (a : A) × (m ≡ ok a) × (k a ≡ ok b)
>>=-eq-ok (ok a) k h = (a, refl, h)
>>=-eq-ok err k h = cc
>>=-eq-ok panic k h = cc
