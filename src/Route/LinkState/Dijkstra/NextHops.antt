-- ===== src/Route/LinkState/Dijkstra/NextHops.antt =====
-- getNextHop on the result: it ends, and it names the first router of a cheapest walk.
use nlsr.Prelude.{
  Double, ℕ, zero, suc, ◌<◌, ◌≡◌, subst, ◌≢◌, ◌⊎◌, inl, inr, Option, none, some, [], arith,
}
use nlsr.Route.LinkState.Dijkstra.{
  calculate_dijkstra_path, get_next_hop, DijkstraResult, follow, AdjMatrix,
}
use nlsr.Route.LinkState.Dijkstra.Optimal.{calculate_dijkstra_path-Exhausted, Walk, start, step, Up}
use nlsr.Route.LinkState.Dijkstra.Tree.{calculate_dijkstra_path-Placed, root, via, Chain}

-- A walk from the source whose first step is to `hop`, and its cost.
pub data Via {D : Type 0} ⦃d : Double D⦄ (m : AdjMatrix D) (source hop : ℕ) : ℕ → D → Type 0 where
  first : Up m source source hop → Via m source hop hop (d.plus d.zero_cost (m.cell source hop))
  onward :
      {v : ℕ} {c : D}
      → Via m source hop v c
      → (w : ℕ) → Up m source v w
      → Via m source hop w (d.plus c (m.cell v w))

module _ {D : Type 0} ⦃d : Double D⦄ (m : AdjMatrix D) (source : ℕ) where
  pub Via-Walk : {hop v : ℕ} {c : D} → Via m source hop v c → Walk m source v c
  Via-Walk (first up) = step start up.0 _ up.1 up.2
  Via-Walk (onward walk w up) = step (Via-Walk walk) up.0 w up.1 up.2

  pub Via-hop : {hop v : ℕ} {c : D} → Via m source hop v c → hop < m.size
  Via-hop (first up) = up.1
  Via-hop (onward walk w up) = Via-hop walk

  abbrev pub Followed : DijkstraResult D → ℕ → ℕ → Option ℕ → Type 0
  Followed s fuel v next_hop =
      ((v ≡ source) × (follow s.parent fuel v next_hop ≡ some (source, next_hop)))
      ⊎ ((hop : ℕ) × (follow s.parent fuel v next_hop ≡ some (source, some hop))
          × Via m source hop v (s.distance v))

  follow-Chain :
      (s : DijkstraResult D)
      → s.distance source ≡ d.zero_cost
      → (v k fuel : ℕ) (next_hop : Option ℕ) → Chain m source s [] v k
      → k < fuel
      → Followed s fuel v next_hop
  unfolding follow
  follow-Chain s z v k zero next_hop chain h = absurd (omega arith)
  follow-Chain s z v k (suc fuel) next_hop (root e _ none_yet) h =
      inl (e, rw (none_yet, follow) (ground arith))
  follow-Chain s z v k (suc fuel) next_hop (via p j e chain settled parent up sum) h =
      elim (follow-Chain s z p j fuel (some v) chain (omega arith)) [
        | inl (at_source, ends) ↦ inr (
          v,
          rw (parent, follow) ends,
          rw (sum, at_source, z) (first (subst (λ x. Up m source x v) at_source up)),
        )
        | inr (hop, ends, walk) ↦ inr (hop, rw (parent, follow) ends, rw sum (onward walk v up))
      ]

  -- For a router other than the source, getNextHop ends, and it returns the first router of a
  -- walk to it whose cost is the router's distance, or no next hop for a router whose distance is
  -- INF_DISTANCE. The source is a row of the matrix.
  pub get_next_hop_lem :
      source < m.size
      → (v : ℕ) → v < m.size
      → v ≢ source
      → let r = calculate_dijkstra_path m source in
        ((get_next_hop r (suc m.size) v source ≡ some none) × (r.distance v ≡ d.inf_distance))
        ⊎ ((hop : ℕ) × (get_next_hop r (suc m.size) v source ≡ some (some hop))
            × Via m source hop v (r.distance v))
  unfolding get_next_hop follow
  get_next_hop_lem h v hv ne = by_place
    where
      r : DijkstraResult D
      r = calculate_dijkstra_path m source

      by_place :
          ((get_next_hop r (suc m.size) v source ≡ some none) × (r.distance v ≡ d.inf_distance))
          ⊎ ((hop : ℕ) × (get_next_hop r (suc m.size) v source ≡ some (some hop))
              × Via m source hop v (r.distance v))
      by_place = elim (calculate_dijkstra_path-Placed m source h v hv) [
        | inl (alone, far) ↦ inl (rw (alone, get_next_hop) (ground arith), far)
        | inr (k, chain, short) ↦
            elim (follow-Chain r (calculate_dijkstra_path-Exhausted m source h).0 v k (suc m.size)
              none chain (omega arith)) [
                | inl (here, _) ↦ absurd (ne here)
                | inr (hop, ends, walk) ↦ inr (hop, rw (ends, get_next_hop) (ground arith), walk)
              ]
      ]
