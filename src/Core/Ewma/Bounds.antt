-- ===== src/Core/Ewma/Bounds.antt =====
-- Where the average of ewma.rs can be, at the decay of 0.5 that `Backend` gives it.
use vortex_proxy.Prelude.{
  ◌⊎◌, ◌≡◌, Bool, true, false, not, List, [], ◌∷◌, arith, All, Bool-cases, inl, inr, sym, ◌∙◌,
}
use vortex_proxy.Float.{Float, ◌≼◌, IsOrdered, IsHalving}
use vortex_proxy.Core.Ewma.{PeakEwma, next_ewma, observe_latency, observe_all}

not-not : (b : Bool) → not b ≡ false → b ≡ true
not-not b h = ground arith

not-true : (b : Bool) → true ≡ not b → b ≡ false
not-true b h = ground arith

module _ {ℓ} {F : Type ℓ} ⦃f : Float F⦄ (laws : IsOrdered F) (half : F)
    (halving : IsHalving F laws half) where
  open laws use {IsAmount, le_refl, le_trans, gt-eq-not-le, le_of_not_le, add_mono, mul_mono}
  open halving use {
    IsNormal, one_sub_half, amount_half, amount_of_normal, amount_mul_half, normal_between,
    add_halves_le, le_add_halves,
  }

  -- Within the bounds, and a number on which halving is exact.
  abbrev pub Between : F → F → F → Type 0
  Between lo hi x = IsNormal x × (lo ≼ x) × (x ≼ hi)

  mean : F → F → F
  mean x y = f.add (f.mul x half) (f.mul y half)

  mean_mono :
      (x y z w : F)
      → IsNormal x
      → IsNormal y
      → IsNormal z
      → IsNormal w
      → x ≼ y
      → z ≼ w
      → mean x z ≼ mean y w
  unfolding mean
  mean_mono x y z w nx ny nz nw p q =
      add_mono _ _ _ _ (amount_mul_half x nx) (amount_mul_half y ny) (amount_mul_half z nz)
        (amount_mul_half w nw)
        (mul_mono x y half half (amount_of_normal x nx) (amount_of_normal y ny) amount_half
          amount_half p (le_refl half amount_half))
        (mul_mono z w half half (amount_of_normal z nz) (amount_of_normal w nw) amount_half
          amount_half q (le_refl half amount_half))

  -- The mean of a sample that is no peak lies between the sample and the average.
  mean-Between : (x y : F) → IsNormal x → IsNormal y → x ≼ y → Between x y (mean x y)
  unfolding mean
  mean-Between x y nx ny p = (normal_between x (mean x y) y nx ny low high, low, high)
    where
      rx : x ≼ x
      rx = le_refl x (amount_of_normal x nx)

      ry : y ≼ y
      ry = le_refl y (amount_of_normal y ny)

      low : x ≼ mean x y
      low = le_trans _ _ _ (le_add_halves x nx) (mean_mono x x x y nx nx nx ny rx p)

      high : mean x y ≼ y
      high = le_trans _ _ _ (mean_mono x y y y nx ny ny ny p ry) (add_halves_le y ny)

  -- One observation: a sample above the average becomes the average, and any other pulls it to a
  -- value between the sample and the old average.
  next_ewma-cases :
      (rtt current : F)
      → IsNormal rtt
      → IsNormal current
      → (current ≼ rtt) × (next_ewma half rtt current ≡ rtt)
        ⊎ (rtt ≼ current) × Between rtt current (next_ewma half rtt current)
  unfolding next_ewma mean
  next_ewma-cases rtt current nr nc = elim (Bool-cases (f.gt rtt current)) [
    | inl peak ↦ inl (
      le_of_not_le rtt current ar ac (not-true _ (sym peak ∙ gt-eq-not-le rtt current ar ac)),
      rw peak,
    )
    | inr calm ↦
        let p : rtt ≼ current = not-not _ (sym (gt-eq-not-le rtt current ar ac) ∙ calm) in
        inr (p, rw (calm, one_sub_half) (mean-Between rtt current nr nc p))
  ]
    where
      ar : IsAmount rtt
      ar = amount_of_normal rtt nr

      ac : IsAmount current
      ac = amount_of_normal current nc

  -- The average after one observation keeps to bounds that hold for the sample and the average.
  next_ewma-Between :
      (lo hi rtt current : F)
      → Between lo hi rtt
      → Between lo hi current
      → Between lo hi (next_ewma half rtt current)
  next_ewma-Between lo hi rtt current (nr, lr, hr) (nc, lc, hc) =
      elim (next_ewma-cases rtt current nr nc) [
        | inl (_, e) ↦ rw e (nr, lr, hr)
        | inr (_, (n, l, h)) ↦ (n, le_trans _ _ _ lr l, le_trans _ _ _ h hc)
      ]

  -- With a decay of 0.5 the average never leaves the interval that the initial latency and all the
  -- samples lie in, if these are numbers on which halving is exact: it is at most the greatest of
  -- them and at least the least.
  pub observe_all-Between :
      (lo hi : F) (e : PeakEwma F) (samples : List F)
      → e.decay_alpha ≡ half
      → Between lo hi e.ewma
      → All (Between lo hi) samples
      → Between lo hi (observe_all e samples).ewma
  unfolding observe_all
  observe_all-Between lo hi e [] d b bs = b
  observe_all-Between lo hi e (rtt ∷ samples) d b (bs, rest) =
      observe_all-Between lo hi (observe_latency e rtt) samples d
        (rw d (next_ewma-Between lo hi rtt e.ewma bs b)) rest

  -- A sample that `>` finds above the average is the next average, whatever the decay.
  pub observe_latency-peak :
      (e : PeakEwma F) (rtt : F) → f.gt rtt e.ewma ≡ true → (observe_latency e rtt).ewma ≡ rtt
  unfolding observe_latency
  observe_latency-peak e rtt peak = rw peak
