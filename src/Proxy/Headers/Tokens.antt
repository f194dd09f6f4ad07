-- ===== src/Proxy/Headers/Tokens.antt =====
-- The numbers that the header of a token count can give.
use vortex_proxy.Prelude.{
  ℕ, ◌+◌, ◌*◌, ◌-◌, ◌≤◌, ◌<◌, ◌≡◌, refl, ltb, Bool, true, false, Bool-cases, inl, inr, Option, none,
  some, [], ◌∷◌, if◌then◌else◌, ◌&&◌, ◌==◌, Text, u64_mod, arith,
}
use vortex_proxy.Proxy.Headers.{is_digit, parse_digits, parse_u64}

abbrev pub all_digits : Text → Bool
all_digits [] = true
all_digits (b ∷ s) = is_digit b && all_digits s

-- The number that digits stand for behind digits whose number is `acc`, without a bound.
abbrev pub value : ℕ → Text → ℕ
value acc [] = acc
value acc (b ∷ s) = value (acc * 10 + (b - 48)) s

-- What is left without a plus sign that something follows.
abbrev pub unsigned : Text → Text
unsigned [] = []
unsigned (b ∷ []) = b ∷ []
unsigned (b ∷ c ∷ s) = if b == 43 then c ∷ s else b ∷ c ∷ s

abbrev pub is_empty : Text → Bool
is_empty [] = true
is_empty (b ∷ s) = false

abbrev pub decimal : Text → Option ℕ
decimal s = if all_digits s && ltb (value 0 s) u64_mod then some (value 0 s) else none

le-value : (acc : ℕ) (s : Text) → acc ≤ value acc s
le-value acc [] = omega arith
le-value acc (b ∷ s) = omega (arith, le-value (acc * 10 + (b - 48)) s)

parse_digits-value :
    (acc : ℕ) (s : Text)
    → acc < u64_mod
    → parse_digits acc s
      ≡ (if all_digits s && ltb (value acc s) u64_mod then some (value acc s) else none)
unfolding parse_digits
parse_digits-value acc [] h = ground arith
parse_digits-value acc (b ∷ s) h = elim (Bool-cases (ltb (acc * 10 + (b - 48)) u64_mod)) [
  | inl e ↦ ground (arith, e, parse_digits-value (acc * 10 + (b - 48)) s (ground arith))
  | inr e ↦ ground (arith, e, le-value (acc * 10 + (b - 48)) s)
]

-- The parser, which stops at the first digit that takes the number out of 64 bits, gives the number
-- that the text stands for in decimal, after a plus sign or without one, where it has at least one
-- digit, nothing but digits, and its number fits; and nothing for any other text.
pub parse_u64-decimal :
    (s : Text) → parse_u64 s ≡ (if is_empty s then none else decimal (unsigned s))
unfolding parse_u64
parse_u64-decimal [] = refl
parse_u64-decimal (b ∷ []) = parse_digits-value 0 (b ∷ []) (omega arith)
parse_u64-decimal (b ∷ c ∷ s) = elim (Bool-cases (b == 43)) [
  | inl e ↦ rw e (parse_digits-value 0 (c ∷ s) (omega arith))
  | inr e ↦ rw e (parse_digits-value 0 (b ∷ c ∷ s) (omega arith))
]
