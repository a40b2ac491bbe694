-- ===== src/Route/LinkState/Table.antt =====
-- addNextHopsToRoutingTable and calculateLinkStateRoutingPath. BOOST_ASSERT and the `*` of an
-- optional name are met by `lookups_lem`: each number below the size has a name.
pub mod Routes
use nlsr.Prelude.{
  Eq, Ord, Double, length, for_up, nat_beq, if◌then◌else◌, ℕ, suc, false, Option, none, some, List,
  [], ◌∷◌,
}
use nlsr.Lsa.{Lsa}
use nlsr.Adjacency.{get_adjacent, Adjacent}
use nlsr.Route.NextHop.{NextHop}
use nlsr.Route.NameMap.{get_router_name_by_mapping_no, get_mapping_no_by_router_name}
use nlsr.Route.RoutingTable.{add_next_hop_to_table, RoutingTable}
use nlsr.Route.LinkState.Matrix.{Link, gather_links, simulate_one_neighbor, make_adj_matrix}
use nlsr.Route.LinkState.Dijkstra.{DijkstraResult, calculate_dijkstra_path, get_next_hop, AdjMatrix}

module _ {N F D : Type 0} ⦃n : Eq N⦄ ⦃f : Eq F⦄ ⦃o : Ord F⦄ ⦃d : Double D⦄ where
  -- The next hop towards router `i` and its destination, if the loop adds one.
  unfoldable pub route_to :
      F → List (N × ℕ) → ℕ → List (Adjacent N F D) → DijkstraResult D → ℕ → Option (N × NextHop F D)
  route_to no_uri names source adjacencies dr i =
      if nat_beq i source then none else elim (get_next_hop dr (suc (length names)) i source) [
        | none ↦ none
        | some none ↦ none
        | some (some hop) ↦ elim (get_router_name_by_mapping_no names hop) [
          | none ↦ none
          | some hop_name ↦ elim (get_router_name_by_mapping_no names i) [
            | none ↦ none
            | some dest ↦ some (
              dest,
              record {
                uri = (get_adjacent no_uri adjacencies hop_name).face_uri;
                route_cost = dr.distance i;
                is_hyperbolic = false;
              },
            )
          ]
        ]
      ]

  add_route : Option (N × NextHop F D) → RoutingTable N F D → RoutingTable N F D
  add_route none rt = rt
  add_route (some (dest, nh)) rt = add_next_hop_to_table rt dest nh

  unfoldable pub add_next_hops_to_routing_table :
      F
      → List (N × ℕ)
      → ℕ
      → List (Adjacent N F D)
      → DijkstraResult D
      → RoutingTable N F D
      → RoutingTable N F D
  unfolding route_to add_route
  add_next_hops_to_routing_table no_uri names source adjacencies dr rt =
      for_up (length names) 0 (λ i rt. add_route (route_to no_uri names source adjacencies dr i) rt)
        rt

  -- One round for each neighbour that is linked; the matrix keeps the last simulation.
  multi_path :
      F
      → List (N × ℕ)
      → ℕ
      → List (Adjacent N F D)
      → List (Link D)
      → AdjMatrix D
      → RoutingTable N F D
      → RoutingTable N F D
  unfolding add_next_hops_to_routing_table
  multi_path no_uri names source adjacencies [] m rt = rt
  multi_path no_uri names source adjacencies (l ∷ links) m rt =
      let m' = simulate_one_neighbor m source l in
      multi_path no_uri names source adjacencies links m' (
        add_next_hops_to_routing_table no_uri names source adjacencies
          (calculate_dijkstra_path m' source) rt)

  unfoldable pub calculate_link_state_routing_path :
      F
      → ℕ
      → N
      → List (Adjacent N F D)
      → List (Lsa N F D)
      → List (N × ℕ)
      → RoutingTable N F D
      → RoutingTable N F D
  unfolding multi_path
  calculate_link_state_routing_path no_uri max_faces router_prefix adjacencies lsas names rt =
      elim (get_mapping_no_by_router_name names router_prefix) [
        | none ↦ rt
        | some source ↦
            let m = make_adj_matrix lsas names in
            if nat_beq max_faces 1
            then add_next_hops_to_routing_table no_uri names source adjacencies
                (calculate_dijkstra_path m source) rt
            else multi_path no_uri names source adjacencies (gather_links m source) m rt
      ]
