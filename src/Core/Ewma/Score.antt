-- ===== src/Core/Ewma/Score.antt =====
-- The routing score of ewma.rs.
use vortex_proxy.Prelude.{◌≤◌, ◌<◌, u64_mod}
use vortex_proxy.Float.{Float, ◌≼◌, IsOrdered}
use vortex_proxy.Core.Ewma.{PeakEwma, calculate_score}

module _ {ℓ} {F : Type ℓ} ⦃f : Float F⦄ (laws : IsOrdered F) where
  open laws use {IsAmount, le_refl, amount_one, amount_of_nat, of_nat_mono, add_mono, mul_mono}

  -- Neither factor of the score overflows.
  pub record IsScorable (e : PeakEwma F) : Type 0 where
    pub latency : IsAmount e.ewma
    pub latency_factor : IsAmount (f.add e.ewma f.one)
    pub load_factor : IsAmount (f.add (f.of_nat e.active_requests) f.one)
    pub counted : e.active_requests < u64_mod

  -- Where the factors do not overflow, a node with at least the average and at least the requests in
  -- flight of another has at least its score.
  pub calculate_score-mono :
      (a b : PeakEwma F)
      → IsScorable a
      → IsScorable b
      → a.ewma ≼ b.ewma
      → a.active_requests ≤ b.active_requests
      → calculate_score a ≼ calculate_score b
  unfolding calculate_score
  calculate_score-mono a b sa sb slower busier =
      mul_mono _ _ _ _ sa.latency_factor sb.latency_factor sa.load_factor sb.load_factor
        (add_mono _ _ _ _ sa.latency sb.latency amount_one amount_one slower (le_refl _ amount_one))
        (add_mono _ _ _ _ (amount_of_nat _ sa.counted) (amount_of_nat _ sb.counted) amount_one
          amount_one (of_nat_mono _ _ busier sb.counted) (le_refl _ amount_one))
