-- ===== src/Route/LinkState/Matrix.antt =====
-- makeAdjMatrix, gatherLinks and simulateOneNeighbor: the matrix of link costs between routers
-- that are known by their mapping numbers.
pub mod Symmetric
use nlsr.Prelude.{
  Eq, Double, cost_le, cost_eq, cost_max, length, for_up, ltb, nat_beq, if◌then◌else◌, ℕ, zero, suc,
  ◌&&◌, none, some, List, [], ◌∷◌,
}
use nlsr.Lsa.{adl, Lsa}
use nlsr.Adjacency.{Adjacent}
use nlsr.Route.NameMap.{get_mapping_no_by_router_name}
use nlsr.Route.LinkState.Dijkstra.{AdjMatrix}

-- matrix[row][col] = cost
abbrev pub set_cell : {D : Type 0} → ℕ → ℕ → D → AdjMatrix D → AdjMatrix D
set_cell row col cost m = record m {
  cell = λ i j. if nat_beq i row && nat_beq j col then cost else m.cell i j;
}

pub data Link (D : Type 0) : Type 0 where
  link : ℕ → D → Link D

module _ {D : Type 0} ⦃d : Double D⦄ where
  unfoldable pub corrected_cost : D → D → D
  corrected_cost to from =
      if cost_le d.zero_cost to && cost_le d.zero_cost from
      then cost_max to from
      else d.non_adjacent_cost

  -- The body of the two loops that make the costs of both directions one.
  unfoldable pub correct : ℕ → ℕ → AdjMatrix D → AdjMatrix D
  unfolding corrected_cost
  correct row col m =
      let to = m.cell row col in
      let from = m.cell col row in
      let cost = corrected_cost to from in
      if cost_eq from to then m else set_cell col row cost (set_cell row col cost m)

  unfoldable pub correct_row : ℕ → ℕ → AdjMatrix D → AdjMatrix D
  unfolding correct
  correct_row n row m = for_up n 0 (correct row) m

  unfoldable pub correct_all : ℕ → AdjMatrix D → AdjMatrix D
  unfolding correct_row
  correct_all n m = for_up n 0 (correct_row n) m

  unfoldable pub unconnected : ℕ → AdjMatrix D
  unconnected n = record { size = n; cell = λ i j. d.non_adjacent_cost }

  -- The loop of gatherLinks, from router `i` on.
  unfoldable pub gather_from : AdjMatrix D → ℕ → ℕ → ℕ → List (Link D)
  gather_from m source i zero = []
  gather_from m source i (suc k) =
      let rest = gather_from m source (suc i) k in
      if nat_beq i source
      then rest
      else if cost_le d.zero_cost (m.cell source i)
      then link i (m.cell source i) ∷ rest
      else rest

  unfoldable pub gather_links : AdjMatrix D → ℕ → List (Link D)
  unfolding gather_from
  gather_links m source = gather_from m source 0 m.size

  unfoldable pub simulate_one_neighbor : AdjMatrix D → ℕ → Link D → AdjMatrix D
  simulate_one_neighbor m source (link index cost) =
      for_up m.size 0
        (λ i m. set_cell source i (if nat_beq i index then cost else d.non_adjacent_cost) m) m

module _ {N F D : Type 0} ⦃n : Eq N⦄ ⦃d : Double D⦄ where
  -- The cost that one adjacency of an LSA announces.
  unfoldable pub fill_cell : List (N × ℕ) → ℕ → N → Adjacent N F D → AdjMatrix D → AdjMatrix D
  fill_cell names n_routers origin a m = elim (get_mapping_no_by_router_name names origin) [
    | none ↦ m
    | some row ↦ elim (get_mapping_no_by_router_name names a.name) [
      | none ↦ m
      | some col ↦
          if ltb row n_routers && ltb col n_routers then set_cell row col a.link_cost m else m
    ]
  ]

  unfoldable pub fill_row : List (N × ℕ) → ℕ → N → List (Adjacent N F D) → AdjMatrix D → AdjMatrix D
  unfolding fill_cell
  fill_row names n_routers origin [] m = m
  fill_row names n_routers origin (a ∷ l) m =
      fill_row names n_routers origin l (fill_cell names n_routers origin a m)

  unfoldable pub fill : List (N × ℕ) → ℕ → List (Lsa N F D) → AdjMatrix D → AdjMatrix D
  unfolding fill_row
  fill names n_routers [] m = m
  fill names n_routers (l ∷ lsas) m =
      fill names n_routers lsas (fill_row names n_routers l.origin_router (adl l.body) m)

  unfoldable pub make_adj_matrix : List (Lsa N F D) → List (N × ℕ) → AdjMatrix D
  unfolding fill correct_all unconnected
  make_adj_matrix lsas names =
      let n_routers = length names in
      correct_all n_routers (fill names n_routers lsas (unconnected n_routers))
