-- ===== src/Float.antt =====
-- What the program does with an `f64`: the arithmetic and comparisons of ewma.rs and the selection
-- functions, as an interface. A value of `F` is a bit pattern, so `≡` is what a compare-exchange on
-- the bits tests. `IsOrdered` and `IsHalving` state facts of IEEE 754 in round-to-nearest.
pub mod Fraction
use vortex_proxy.Prelude.{ℕ, ◌≤◌, ◌<◌, ◌≡◌, Bool, true, false, not, Option, none, some, u64_mod}
use Prim.Native.Nat.{Ordering}

pub record Float {ℓ} (F : Type ℓ) : Type ℓ where
  pub one : F
  -- `n as f64`
  pub of_nat : ℕ → F
  pub add : F → F → F
  pub sub : F → F → F
  pub mul : F → F → F
  pub gt : F → F → Bool
  pub le : F → F → Bool
  pub partial_cmp : F → F → Option Ordering

infix 4 ◌≼◌
abbrev pub ◌≼◌ {ℓ} : {F : Type ℓ} ⦃f : Float F⦄ → F → F → Type 0
◌≼◌ ⦃f⦄ x y = f.le x y ≡ true

-- The test that a comparison decides: `partial_cmp(..).unwrap_or(Equal)` is `Greater`.
abbrev pub is_greater : Option Ordering → Bool
is_greater none = false
is_greater (some Ordering.lt) = false
is_greater (some Ordering.eq) = false
is_greater (some Ordering.gt) = true

-- The numbers that a latency or a score can be: `IsAmount x` for an `x` that is no NaN, at least 0
-- and finite. There `≼` is a total order with which `>` and `partial_cmp` agree, and rounding keeps
-- sums and products monotone. (Either may round up to infinity, which is above every amount.)
pub record IsOrdered {ℓ} (F : Type ℓ) ⦃f : Float F⦄ : Type (ℓ ⊔ 1) where
  pub IsAmount : F → Type 0
  pub amount_of_nat : (n : ℕ) → n < u64_mod → IsAmount (f.of_nat n)
  pub amount_one : IsAmount f.one
  pub le_refl : (x : F) → IsAmount x → x ≼ x
  pub le_trans : (x y z : F) → x ≼ y → y ≼ z → x ≼ z
  pub is_greater-partial_cmp : (x y : F) → is_greater (f.partial_cmp x y) ≡ f.gt x y
  pub gt-eq-not-le : (x y : F) → IsAmount x → IsAmount y → f.gt x y ≡ not (f.le x y)
  pub le_of_not_le : (x y : F) → IsAmount x → IsAmount y → f.le x y ≡ false → y ≼ x
  pub of_nat_mono : (m n : ℕ) → m ≤ n → n < u64_mod → f.of_nat m ≼ f.of_nat n
  pub add_mono :
      (x y z w : F)
      → IsAmount x
      → IsAmount y
      → IsAmount z
      → IsAmount w
      → x ≼ y
      → z ≼ w
      → f.add x z ≼ f.add y w
  pub mul_mono :
      (x y z w : F)
      → IsAmount x
      → IsAmount y
      → IsAmount z
      → IsAmount w
      → x ≼ y
      → z ≼ w
      → f.mul x z ≼ f.mul y w

-- `half` is 0.5. Halving is exact on the numbers of `IsNormal`, an interval: those from twice the
-- least normal `f64` up to the greatest finite one.
pub record IsHalving {ℓ} (F : Type ℓ) ⦃f : Float F⦄ (laws : IsOrdered F) (half : F)
    : Type (ℓ ⊔ 1) where
  pub IsNormal : F → Type 0
  pub one_sub_half : f.sub f.one half ≡ half
  pub amount_half : laws.IsAmount half
  pub amount_of_normal : (x : F) → IsNormal x → laws.IsAmount x
  pub amount_mul_half : (x : F) → IsNormal x → laws.IsAmount (f.mul x half)
  pub normal_between : (x y z : F) → IsNormal x → IsNormal z → x ≼ y → y ≼ z → IsNormal y
  pub add_halves_le : (x : F) → IsNormal x → f.add (f.mul x half) (f.mul x half) ≼ x
  pub le_add_halves : (x : F) → IsNormal x → x ≼ f.add (f.mul x half) (f.mul x half)
