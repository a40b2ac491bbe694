-- ===== src/Route/Hyperbolic/Ranges.antt =====
-- route/routing-calculator-hyperbolic.cpp: which angles are refused.
use nlsr.Route.Hyperbolic.{
  Trigonometry, any_outside, last_angle, inner_product, distance_of, calculate_angular_distance,
}
use nlsr.Prelude.{
  Double, cost_le, length, if◌then◌else◌, ◌<◌, ◌≡◌, refl, false, ◌&&◌, some, List, [], ◌∷◌, arith,
}

module _ {D : Type 0} ⦃d : Double D⦄ (m : Trigonometry D) where
  -- No angle is both above pi and below 0.
  any_outside_lem : (i j : List D) → d.rank d.zero_cost < d.rank m.pi → any_outside m i j ≡ false
  unfolding any_outside
  any_outside_lem [] j h = refl
  any_outside_lem (a ∷ []) j h = refl
  any_outside_lem (a ∷ a' ∷ i) [] h = refl
  any_outside_lem (a ∷ a' ∷ i) (b ∷ []) h = refl
  any_outside_lem (a ∷ a' ∷ i) (b ∷ b' ∷ j) h = ground (arith, any_outside_lem (a' ∷ i) (b' ∷ j) h)

  -- For two vectors of the same length, not empty, the only angle that can make the distance
  -- unknown is the last one of the first vector: with that one in [0, 2 pi] the distance is the
  -- arc cosine of the inner product, whatever the other angles.
  pub calculate_angular_distance-last_angle :
      (a : D) (i : List D) (b : D) (j : List D)
      → length i ≡ length j
      → d.rank d.zero_cost < d.rank m.pi
      → calculate_angular_distance m (a ∷ i) (b ∷ j)
        ≡ some (
            if cost_le d.zero_cost (last_angle m a i) && cost_le (last_angle m a i) m.two_pi
            then m.acos (inner_product m a i b j)
            else m.unknown_distance)
  unfolding calculate_angular_distance distance_of
  calculate_angular_distance-last_angle a i b j h p =
      ground (arith, any_outside_lem (a ∷ i) (b ∷ j) p)
