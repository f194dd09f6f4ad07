-- ===== src/Filters/RedisStore/Sample.antt =====
-- A Redis that keeps each key with its expiry.
use vortex_proxy.Prelude.{
  ℕ, ◌+◌, ◌<◌, ◌≡◌, subst, Bool-cases, inl, inr, refl, arith, true, Option, none, some,
  if◌then◌else◌, ◌==◌, ltb, Text, text_eq, text_eq_refl, eq_of_text_eq, ◌≢◌, sym,
}
use vortex_proxy.Filters.RedisStore.{Redis}

abbrev pub Keys : Type 0
Keys = Text → Option (ℕ × ℕ)

abbrev pub until : ℕ → Option (ℕ × ℕ) → Option ℕ
until now none = none
until now (some (value, expires)) = if ltb now expires then some value else none

abbrev pub stored_at : Keys → Text → ℕ × ℕ → Keys
stored_at keys key entry q = if text_eq key q then some entry else keys q

pub stored-until :
    (keys : Keys) (key : Text) (value expires now : ℕ)
    → ltb now expires ≡ true
    → until now (stored_at keys key (value, expires) key) ≡ some value
stored-until keys key value expires now e = ground (arith, text_eq_refl key, e)

abbrev pub set_at : Keys → Text → ℕ → ℕ → ℕ → Option Keys
set_at keys key value px now = if px == 0 then none else some (stored_at keys key (value, now + px))

pub set_at-positive :
    (keys : Keys) (key : Text) (value px now : ℕ)
    → 0 < px
    → set_at keys key value px now ≡ some (stored_at keys key (value, now + px))
set_at-positive keys key value px now h = ground (arith, h)

pub set_at-until :
    (keys keys' : Keys) (key : Text) (value px now t : ℕ)
    → set_at keys key value px now ≡ some keys'
    → t < now + px
    → until t (keys' key) ≡ some value
set_at-until keys keys' key value px now t e h = elim (Bool-cases (px == 0)) [
  | inl zero_px ↦ absurd (ground (arith, e, zero_px))
  | inr positive ↦
      let same : stored_at keys key (value, now + px) ≡ keys' = ground (arith, e, positive) in
      subst (λ k. until t (k key) ≡ some value) same
        (stored-until keys key value (now + px) t (ground (arith, h)))
]

pub set_at-other :
    (keys keys' : Keys) (key other : Text) (value px now t : ℕ)
    → set_at keys key value px now ≡ some keys'
    → other ≢ key
    → until t (keys' other) ≡ until t (keys other)
set_at-other keys keys' key other value px now t e ne = elim (Bool-cases (px == 0)) [
  | inl zero_px ↦ absurd (ground (arith, e, zero_px))
  | inr positive ↦
      let same : stored_at keys key (value, now + px) ≡ keys' = ground (arith, e, positive) in
      elim (Bool-cases (text_eq key other)) [
        | inl hit ↦ absurd (ne (sym (eq_of_text_eq key other hit)))
        | inr miss ↦
            subst (λ k. until t (k other) ≡ until t (keys other)) same (ground (arith, miss))
      ]
]

abbrev pub redis : Redis
redis = record {
  State = Keys;
  get = λ keys key now. until now (keys key);
  set_px = set_at;
  set_zero = λ keys key value now. refl;
  set_positive = λ keys key value px now h.
      (stored_at keys key (value, now + px), set_at-positive keys key value px now h);
  get_before = set_at-until;
  get_other = set_at-other;
}
