-- ===== src/Examples/LinkStateRun.antt =====
-- Three routers 10, 20, 30 in a triangle; the link from 10 to 30 is dear.
use nlsr.Route.LinkState.Dijkstra.Optimal.{Walk, start, step}
use nlsr.Route.LinkState.Dijkstra.NextHops.{Via}
use nlsr.Route.LinkState.Table.Routes.{single_path-routes, entry_to}
use nlsr.Route.LinkState.Table.{calculate_link_state_routing_path}
use nlsr.Route.LinkState.Dijkstra.Optimal.{distance-le-Walk}
use nlsr.Prelude.{nat_eq, ℕ, ◌≤◌, ◌≡◌, refl, ◌⊎◌, true, false, none, some, List, [], ◌∷◌, arith}
use nlsr.Sequencing.{hyperbolic_off}
use nlsr.Adjacency.{get_adjacent, active, Adjacent}
use nlsr.Route.NexthopList.{add_next_hop}
use nlsr.Lsa.{adj_body, Lsa}
use nlsr.Route.NameMap.{
  get_router_name_by_mapping_no, get_mapping_no_by_router_name, create_from_adj_lsdb,
}
use nlsr.Route.RoutingTable.{add_next_hop_to_table, RoutingTable}
use nlsr.Route.LinkState.Matrix.{corrected_cost, make_adj_matrix}
use nlsr.Route.LinkState.Matrix.Symmetric.{make_adj_matrix-cell}
use nlsr.Route.LinkState.Dijkstra.{get_next_hop, AdjMatrix, calculate_dijkstra_path}
use nlsr.Examples.Values.{nat_ord, tenths_double, rank_of, tenths, Tenths}

abbrev pub neighbor : ℕ → ℕ → ℕ → Adjacent ℕ ℕ Tenths
neighbor router uri cost = record {
  name = router;
  face_uri = uri;
  link_cost = tenths cost;
  status = active;
  interest_timed_out_no = 0;
  face_id = uri;
}

abbrev pub adj_lsa_of : ℕ → List (Adjacent ℕ ℕ Tenths) → Lsa ℕ ℕ Tenths
adj_lsa_of router l = record {
  origin_router = router;
  seq_no = 1;
  expiration_time_point = 100;
  body = adj_body l;
}

abbrev pub own_neighbors : List (Adjacent ℕ ℕ Tenths)
own_neighbors = neighbor 20 2 11 ∷ neighbor 30 3 91 ∷ []

abbrev pub triangle : List (Lsa ℕ ℕ Tenths)
triangle =
    adj_lsa_of 10 own_neighbors
    ∷ adj_lsa_of 20 (neighbor 10 1 11 ∷ neighbor 30 3 21 ∷ [])
    ∷ adj_lsa_of 30 (neighbor 10 1 91 ∷ neighbor 20 2 31 ∷ [])
    ∷ []

abbrev pub empty_table : RoutingTable ℕ ℕ Tenths
empty_table = record {
  r_table = [];
  dry_table = [];
  hyperbolic_state = hyperbolic_off;
  is_calculating = false;
  is_calculation_scheduled = false;
  scheduled_calculation = false;
  is_immediate_calculation_pending = false;
  own_adj_lsa_exist = true;
  change_from_calculation = false;
  announced = [];
}

triangle_names : create_from_adj_lsdb triangle [] ≡ (10, 0) ∷ (20, 1) ∷ (30, 2) ∷ []
unfolding create_from_adj_lsdb
triangle_names = refl

abbrev pub triangle_matrix : AdjMatrix Tenths
triangle_matrix = make_adj_matrix triangle (create_from_adj_lsdb triangle [])

-- The way to 30 leads through 20, at the larger of the two costs that the link announces.
triangle_distance : (calculate_dijkstra_path triangle_matrix 0).distance 2 ≡ tenths 41
unfolding calculate_dijkstra_path make_adj_matrix create_from_adj_lsdb get_mapping_no_by_router_name
triangle_distance = refl

triangle_routes :
    (calculate_link_state_routing_path 0 1 10 own_neighbors triangle
      (create_from_adj_lsdb triangle [])
      empty_table).r_table
    ≡ record {
      destination = 20;
      nexthop_list = record { uri = 2; route_cost = tenths 11; is_hyperbolic = false } ∷ [];
    }
      ∷ record {
        destination = 30;
        nexthop_list = record { uri = 2; route_cost = tenths 41; is_hyperbolic = false } ∷ [];
      }
      ∷ []
unfolding calculate_link_state_routing_path calculate_dijkstra_path make_adj_matrix
    create_from_adj_lsdb add_next_hop_to_table add_next_hop get_adjacent
    get_mapping_no_by_router_name get_next_hop get_router_name_by_mapping_no
triangle_routes = refl

direct-Walk : Walk triangle_matrix 0 2 (tenths 91)
unfolding make_adj_matrix create_from_adj_lsdb get_mapping_no_by_router_name
direct-Walk = step start (omega arith) 2 (omega arith) (omega arith)

single_path-routes_example :
    let names = create_from_adj_lsdb triangle [] in
    let dist = (calculate_dijkstra_path triangle_matrix 0).distance 2 in
    let entry =
      entry_to
        (calculate_link_state_routing_path 0 1 10 own_neighbors triangle names empty_table)
        30 in
    ((entry ≡ none) × (dist ≡ tenths_double.inf_distance))
    ⊎ ((hop : ℕ) × (hop_name : ℕ) × (get_router_name_by_mapping_no names hop ≡ some hop_name)
        × (entry
            ≡ some (record {
              destination = 30;
              nexthop_list =
                  record {
                    uri = (get_adjacent 0 own_neighbors hop_name).face_uri;
                    route_cost = dist;
                    is_hyperbolic = false;
                  }
                  ∷ [];
            }))
        × Via triangle_matrix 0 hop 2 dist)
unfolding create_from_adj_lsdb get_mapping_no_by_router_name
single_path-routes_example =
    single_path-routes 0 10 own_neighbors triangle empty_table 0 2 30 refl refl (omega arith) refl

distance-le-Walk_example : rank_of ((calculate_dijkstra_path triangle_matrix 0).distance 2) ≤ 91
unfolding make_adj_matrix create_from_adj_lsdb get_mapping_no_by_router_name
distance-le-Walk_example = distance-le-Walk triangle_matrix 0 (omega arith) direct-Walk

make_adj_matrix-cell_example :
    (triangle_matrix.cell 1 2 ≡ tenths 31) × (triangle_matrix.cell 1 2 ≡ triangle_matrix.cell 2 1)
unfolding make_adj_matrix create_from_adj_lsdb corrected_cost get_mapping_no_by_router_name
make_adj_matrix-cell_example =
    make_adj_matrix-cell triangle (create_from_adj_lsdb triangle []) 1 2 (omega arith) (omega arith)
