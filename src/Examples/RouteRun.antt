-- ===== src/Examples/RouteRun.antt =====
-- The name map, the routing table and next hops on the triangle of LinkStateRun.
use nlsr.Prelude.{nat_eq, ℕ, zero, suc, ◌≡◌, refl, ◌⊎◌, true, false, none, some, [], arith}
use nlsr.Examples.Values.{Tenths, tenths, nat_ord, tenths_double}
use nlsr.Examples.LinkStateRun.{empty_table, triangle, triangle_matrix}
use nlsr.Route.LinkState.Matrix.{make_adj_matrix}
use nlsr.Route.LinkState.Dijkstra.NextHops.{Via}
use nlsr.Route.RoutingTable.Schedule.{IsQuiet, IsIdle, once, calculate-IsIdle}
use nlsr.Examples.LinkStateRun.{empty_table}
use nlsr.Route.NameMap.{get_mapping_no_by_router_name, create_from_adj_lsdb}
use nlsr.Route.NameMap.Bijection.{Numbered, create_from_adj_lsdb-Numbered}
use nlsr.Route.RoutingTable.{
  clear_routing_table, clear_dry_routing_table, after_routing_change, calculate_ls_routing_table,
  calculate_hyp_routing_table, RoutingTable, calculate_by_state, calculate_once, calculate,
}
use nlsr.Route.LinkState.Dijkstra.{calculate_dijkstra_path, get_next_hop}
use nlsr.Route.LinkState.Dijkstra.NextHops.{get_next_hop_lem}

triangle-Numbered : Numbered 0 (create_from_adj_lsdb triangle [])
triangle-Numbered = create_from_adj_lsdb-Numbered triangle [] tt

create_from_adj_lsdb-Numbered_example : Numbered 0 (create_from_adj_lsdb triangle [])
create_from_adj_lsdb-Numbered_example = create_from_adj_lsdb-Numbered triangle [] tt

abbrev distances : ℕ → Tenths
distances zero = tenths 5
distances (suc zero) = tenths 9
distances (suc (suc n)) = tenths 2

get_next_hop_lem_example :
    let r = calculate_dijkstra_path triangle_matrix 0 in
    ((get_next_hop r 4 2 0 ≡ some none) × (r.distance 2 ≡ tenths_double.inf_distance))
    ⊎ ((hop : ℕ) × (get_next_hop r 4 2 0 ≡ some (some hop))
        × Via triangle_matrix 0 hop 2 (r.distance 2))
unfolding make_adj_matrix create_from_adj_lsdb get_mapping_no_by_router_name
get_next_hop_lem_example =
    get_next_hop_lem triangle_matrix 0 (omega arith) 2 (omega arith) (omega arith)

pass-IsQuiet : IsQuiet {N = ℕ} {F = ℕ} {D = Tenths} (λ rt. rt) (λ _ rt. rt) (λ rt. rt) false
unfolding IsQuiet once calculate_once calculate_by_state calculate_ls_routing_table
    calculate_hyp_routing_table after_routing_change clear_routing_table clear_dry_routing_table
pass-IsQuiet rt = (ground arith, ground arith)

abbrev with_request : RoutingTable ℕ ℕ Tenths
with_request = record empty_table { is_immediate_calculation_pending = true }

calculate-IsIdle_example :
    (new : RoutingTable ℕ ℕ Tenths) × (calculate
        (λ rt. rt)
        (λ _ rt. rt)
        (λ rt. rt)
        false
        2
        with_request
      ≡ some new)
    × IsIdle (λ rt. rt) (λ _ rt. rt) (λ rt. rt) false new
calculate-IsIdle_example =
    calculate-IsIdle (λ rt. rt) (λ _ rt. rt) (λ rt. rt) false with_request 0 pass-IsQuiet refl refl
