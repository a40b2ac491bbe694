-- ===== src/Route/RoutingTable/Schedule.antt =====
-- When the routing table is calculated.
use nlsr.Prelude.{
  Bool-cases, ℕ, suc, ◌≡◌, refl, ◌∙◌, inl, inr, Bool, true, false, Option, some, arith,
}
use nlsr.Route.RoutingTable.{calculate_once, calculate, RoutingTable}

module _ {N F D : Type 0} (link_state : RoutingTable N F D → RoutingTable N F D)
    (hyperbolic : Bool → RoutingTable N F D → RoutingTable N F D)
    (subscribers : RoutingTable N F D → RoutingTable N F D) (adj_build_scheduled : Bool) where
  unfoldable pub once : RoutingTable N F D → RoutingTable N F D
  unfolding calculate_once
  once rt = calculate_once link_state hyperbolic subscribers adj_build_scheduled rt

  -- No pass asks for a further one, neither at once nor by a timer.
  unfoldable pub IsQuiet : Type 0
  unfolding once
  IsQuiet =
      (rt : RoutingTable N F D)
      → ((once rt).is_immediate_calculation_pending ≡ rt.is_immediate_calculation_pending)
        × ((once rt).scheduled_calculation ≡ rt.scheduled_calculation)

  abbrev pub IsIdle : RoutingTable N F D → Type 0
  IsIdle rt =
      (rt.is_calculating ≡ false)
      × (rt.is_calculation_scheduled ≡ false)
      × (rt.scheduled_calculation ≡ false)
      × (rt.is_immediate_calculation_pending ≡ false)

  calculate-once :
      (rt : RoutingTable N F D) (fuel : ℕ)
      → IsQuiet
      → rt.is_calculating ≡ false
      → rt.scheduled_calculation ≡ false
      → rt.is_immediate_calculation_pending ≡ false
      → (new : RoutingTable N F D) × (calculate link_state hyperbolic subscribers
            adj_build_scheduled
            (suc fuel)
            rt
          ≡ some new)
        × IsIdle new
  unfolding calculate once IsQuiet
  calculate-once rt fuel quiet idle fired none_left =
      let (last, timer) = quiet rt in
      (once rt, ground arith, (refl, refl, timer ∙ fired, last ∙ none_left))

  -- A left-over request takes a further pass.
  calculate-again :
      (rt : RoutingTable N F D) (fuel : ℕ) (result : Option (RoutingTable N F D))
      → rt.is_calculating ≡ false
      → (once rt).is_immediate_calculation_pending ≡ true
      → calculate link_state hyperbolic subscribers adj_build_scheduled fuel
          (record (once rt) { is_immediate_calculation_pending = false })
        ≡ result
      → calculate link_state hyperbolic subscribers adj_build_scheduled (suc fuel) rt ≡ result
  unfolding calculate once
  calculate-again rt fuel result idle asked e = rw (idle, asked, calculate) e

  -- If no pass of the calculation asks for a further one, neither at once nor by a timer, a
  -- calculation that starts while none runs and while no timer for one is pending ends within two
  -- passes, also where a request was left over, and leaves no calculation running or requested, no
  -- timer for one pending, and the flag of a scheduled one unset.
  pub calculate-IsIdle :
      (rt : RoutingTable N F D) (fuel : ℕ)
      → IsQuiet
      → rt.is_calculating ≡ false
      → rt.scheduled_calculation ≡ false
      → (new : RoutingTable N F D) × (calculate link_state hyperbolic subscribers
            adj_build_scheduled
            (suc (suc fuel))
            rt
          ≡ some new)
        × IsIdle new
  unfolding calculate once IsQuiet
  calculate-IsIdle rt fuel quiet idle fired =
      elim (Bool-cases rt.is_immediate_calculation_pending) [
        | inl left_over ↦
            let again = record (once rt) { is_immediate_calculation_pending = false } in
            let (new, e, done) = calculate-once again fuel quiet refl ((quiet rt).1 ∙ fired) refl in
            (new, calculate-again rt (suc fuel) (some new) idle ((quiet rt).0 ∙ left_over) e, done)
        | inr none_left ↦ calculate-once rt (suc fuel) quiet idle fired none_left
      ]
