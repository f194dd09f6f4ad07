-- ===== src/Float/Fraction.antt =====
-- Exact fractions, as an `f64` that never rounds: the laws of the interface can be met, and tests run.
use Prim.Native.Nat.{compare}
use native.Mathlib.Nat.{mul-le-mul, mul-le-mul_right, le_of_mul-le-mul_right}
use vortex_proxy.Prelude.{
  ℕ, suc, not, false, ◌+◌, ◌-◌, ◌*◌, ◌≤◌, ◌≡◌, refl, true, some, arith, ltb, leb, leb→le,
}
use vortex_proxy.Float.{Float, ◌≼◌, is_greater, IsOrdered, IsHalving}

-- num / (below + 1).
pub record Fraction : Type 0 where
  pub num : ℕ
  pub below : ℕ

abbrev pub den : Fraction → ℕ
den a = suc a.below

abbrev pub whole : ℕ → Fraction
whole n = record { num = n; below = 0 }

abbrev pub half : Fraction
half = record { num = 1; below = 1 }

abbrev pub scaled : ℕ → Fraction → Fraction → Fraction
scaled n a b = record { num = n; below = a.below * b.below + a.below + b.below }

instance abbrev pub fraction_float : Float Fraction
fraction_float = record {
  one = whole 1;
  of_nat = whole;
  add = λ a b. scaled (a.num * den b + b.num * den a) a b;
  sub = λ a b. scaled (a.num * den b - b.num * den a) a b;
  mul = λ a b. scaled (a.num * b.num) a b;
  gt = λ a b. ltb (b.num * den a) (a.num * den b);
  le = λ a b. leb (a.num * den b) (b.num * den a);
  partial_cmp = λ a b. some (compare (a.num * den b) (b.num * den a));
}

pub le→leb : (a b : ℕ) → a ≤ b → leb a b ≡ true
le→leb a b h = ground arith

-- The order of two fractions, as an order of the cross products.
cross : (x y : Fraction) → x ≼ y → x.num * den y ≤ y.num * den x
cross x y h = leb→le _ _ h

mul_cross :
    (x y z w : Fraction)
    → x.num * den y ≤ y.num * den x
    → z.num * den w ≤ w.num * den z
    → x.num * z.num * den (scaled 0 y w) ≤ y.num * w.num * den (scaled 0 x z)
mul_cross x y z w p q = omega (arith, mul-le-mul p q)

add_cross :
    (x y z w : Fraction)
    → x.num * den y ≤ y.num * den x
    → z.num * den w ≤ w.num * den z
    → (x.num * den z + z.num * den x) * den (scaled 0 y w)
      ≤ (y.num * den w + w.num * den y) * den (scaled 0 x z)
add_cross x y z w p q =
    omega (arith, mul-le-mul_right (den z * den w) p, mul-le-mul_right (den x * den y) q)

module _ (x y z w : Fraction) (p : x ≼ y) (q : z ≼ w) where
  pub mul_mono : fraction_float.mul x z ≼ fraction_float.mul y w
  mul_mono = le→leb _ _ (mul_cross x y z w (cross x y p) (cross z w q))

  pub add_mono : fraction_float.add x z ≼ fraction_float.add y w
  add_mono = le→leb _ _ (add_cross x y z w (cross x y p) (cross z w q))

pub le_trans : (x y z : Fraction) → x ≼ y → y ≼ z → x ≼ z
le_trans x y z p q = le→leb _ _ (
    le_of_mul-le-mul_right {k = den y}
      (omega
        (arith, mul-le-mul_right (den z) (cross x y p), mul-le-mul_right (den x) (cross y z q)))
      (omega arith))

pub le_refl : (x : Fraction) → x ≼ x
le_refl x = ground arith

pub gt-eq-not-le : (x y : Fraction) → fraction_float.gt x y ≡ not (fraction_float.le x y)
gt-eq-not-le x y = ground arith

pub is_greater-partial_cmp :
    (x y : Fraction) → is_greater (fraction_float.partial_cmp x y) ≡ fraction_float.gt x y
is_greater-partial_cmp x y = ground arith

pub le_of_not_le : (x y : Fraction) → fraction_float.le x y ≡ false → y ≼ x
le_of_not_le x y h = ground arith

pub whole_mono : (m n : ℕ) → m ≤ n → whole m ≼ whole n
whole_mono m n h = le→leb _ _ (omega arith)

pub add_halves_le :
    (x : Fraction) → fraction_float.add (fraction_float.mul x half) (fraction_float.mul x half) ≼ x
add_halves_le x = le→leb _ _ (omega arith)

pub le_add_halves :
    (x : Fraction) → x ≼ fraction_float.add (fraction_float.mul x half) (fraction_float.mul x half)
le_add_halves x = le→leb _ _ (omega arith)

abbrev pub fraction_laws : IsOrdered Fraction
fraction_laws = record {
  IsAmount = λ _. Unit;
  amount_of_nat = λ n h. tt;
  amount_one = tt;
  le_refl = λ x _. le_refl x;
  le_trans = le_trans;
  is_greater-partial_cmp = is_greater-partial_cmp;
  gt-eq-not-le = λ x y _ _. gt-eq-not-le x y;
  le_of_not_le = λ x y _ _. le_of_not_le x y;
  of_nat_mono = λ m n h _. whole_mono m n h;
  add_mono = λ x y z w _ _ _ _. add_mono x y z w;
  mul_mono = λ x y z w _ _ _ _. mul_mono x y z w;
}

abbrev pub fraction_halving : IsHalving Fraction fraction_laws half
fraction_halving = record {
  IsNormal = λ _. Unit;
  one_sub_half = refl;
  amount_half = tt;
  amount_of_normal = λ _ _. tt;
  amount_mul_half = λ _ _. tt;
  normal_between = λ _ _ _ _ _ _ _. tt;
  add_halves_le = λ x _. add_halves_le x;
  le_add_halves = λ x _. le_add_halves x;
}
