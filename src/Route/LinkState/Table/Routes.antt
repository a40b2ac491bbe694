-- ===== src/Route/LinkState/Table/Routes.antt =====
-- The routes that the link-state calculation puts into an empty table.
use nlsr.Prelude.Sets.{set_insert}
use nlsr.Route.LinkState.Matrix.Symmetric.{make_adj_matrix-size}
use nlsr.Lsa.{Lsa}
use nlsr.Route.LinkState.Matrix.{make_adj_matrix}
use nlsr.Route.LinkState.Dijkstra.NextHops.{Via-hop, Via, get_next_hop_lem}
use nlsr.Adjacency.{get_adjacent, Adjacent}
use nlsr.Route.NextHop.{NextHop, hop_lt}
use nlsr.Route.NameMap.{
  get_mapping_no_by_router_name, create_from_adj_lsdb, get_router_name_by_mapping_no,
}
use nlsr.Route.NexthopList.{add_next_hop}
use nlsr.Route.NameMap.Bijection.{create_from_adj_lsdb-Numbered, Numbered, lookups_lem}
use nlsr.Route.RoutingTable.Entries.{hops_to, add_to_table_lem}
use nlsr.Route.LinkState.Dijkstra.{AdjMatrix, calculate_dijkstra_path, DijkstraResult}
use nlsr.Route.LinkState.Table.{
  calculate_link_state_routing_path, add_next_hops_to_routing_table, route_to, add_route,
}
use nlsr.Prelude.{
  Eq, ==_iff, Ord, Double, length, find_if, for_up, ltb, leb, nat_beq, if◌then◌else◌, ℕ, zero, suc,
  ◌+◌, ◌<◌, ◌≡◌, refl, ap, ◌≢◌, ◌⊎◌, inl, inr, false, ◌&&◌, Option, none, some, List, [], ◌∷◌,
  arith,
}
use nlsr.Route.RoutingTable.{
  add_next_hop_to_table, RoutingTableEntry, has_destination, RoutingTable,
}

module _ {N F D : Type 0} ⦃n : Eq N⦄ ⦃f : Eq F⦄ ⦃o : Ord F⦄ ⦃d : Double D⦄ where
  abbrev pub entry_to : RoutingTable N F D → N → Option (RoutingTableEntry N F D)
  entry_to rt dest = find_if (has_destination dest) rt.r_table

  module _ (no_uri : F) (names : List (N × ℕ)) (source : ℕ) (adjacencies : List (Adjacent N F D))
      (dr : DijkstraResult D) (numbered : Numbered 0 names) where
    route_to-name :
        (i : ℕ) (dest : N) (nh : NextHop F D)
        → route_to no_uri names source adjacencies dr i ≡ some (dest, nh)
        → get_router_name_by_mapping_no names i ≡ some dest
    unfolding route_to
    route_to-name i dest nh h = ground arith

    -- The entry for a destination, with what its own round adds.
    abbrev with_route :
        Option (N × NextHop F D)
        → N
        → Option (RoutingTableEntry N F D)
        → Option (RoutingTableEntry N F D)
    with_route none dest old = old
    with_route (some (x, nh)) dest old =
        some (record { destination = dest; nexthop_list = add_next_hop hop_lt nh (hops_to old) })

    add_route-entry :
        (i x : ℕ) (dest : N) (route : Option (N × NextHop F D)) (rt : RoutingTable N F D)
        → ((to : N) (nh : NextHop F D)
            → route ≡ some (to, nh)
            → get_router_name_by_mapping_no names i ≡ some to)
        → get_router_name_by_mapping_no names x ≡ some dest
        → entry_to (add_route route rt) dest
          ≡ (if nat_beq i x then with_route route dest (entry_to rt dest) else entry_to rt dest)
    unfolding add_route add_next_hop_to_table
    add_route-entry i x dest none rt named here = ground arith
    add_route-entry i x dest (some (to, nh)) rt named here = ground (
      arith,
      named to nh refl,
      add_to_table_lem to dest nh rt.r_table,
      ==_iff to dest,
      lookups_lem names dest i numbered,
      lookups_lem names dest x numbered,
    )

    rounds-entry :
        (k i x : ℕ) (dest : N) (rt : RoutingTable N F D)
        → get_router_name_by_mapping_no names x ≡ some dest
        → entry_to
            (for_up k i (λ j rt. add_route (route_to no_uri names source adjacencies dr j) rt) rt)
            dest
          ≡ (if leb i x && ltb x (i + k)
              then with_route
                  (route_to no_uri names source adjacencies dr x)
                  dest
                  (entry_to rt dest)
              else entry_to rt dest)
    rounds-entry zero i x dest rt here = ground arith
    rounds-entry (suc k) i x dest rt here = ground (
      arith,
      rounds-entry k (suc i) x dest (add_route (route_to no_uri names source adjacencies dr i) rt)
          here,
      add_route-entry i x dest (route_to no_uri names source adjacencies dr i) rt (route_to-name i)
          here,
    )

    pub cleared-entry :
        (x : ℕ) (dest : N) (rt : RoutingTable N F D)
        → get_router_name_by_mapping_no names x ≡ some dest
        → rt.r_table ≡ []
        → entry_to (add_next_hops_to_routing_table no_uri names source adjacencies dr rt) dest
          ≡ with_route (route_to no_uri names source adjacencies dr x) dest none
    unfolding add_next_hops_to_routing_table
    cleared-entry x dest rt here empty = ground (
      arith,
      rounds-entry (length names) 0 x dest rt here,
      lookups_lem names dest x numbered,
      ap (find_if (has_destination dest)) empty,
    )

  -- The entry that a cleared table gets for a router of the map, by the router's distance: none,
  -- or one next hop through the face of the first router of a cheapest walk, at that distance.
  routes_lem :
      (no_uri : F) (names : List (N × ℕ)) (source x : ℕ) (dest : N)
      (adjacencies : List (Adjacent N F D)) (m : AdjMatrix D) (rt : RoutingTable N F D)
      → Numbered 0 names
      → m.size ≡ length names
      → source < length names
      → get_router_name_by_mapping_no names x ≡ some dest
      → x ≢ source
      → rt.r_table ≡ []
      → let dr = calculate_dijkstra_path m source in
        let entry =
          entry_to (add_next_hops_to_routing_table no_uri names source adjacencies dr rt) dest in
        ((entry ≡ none) × (dr.distance x ≡ d.inf_distance))
        ⊎ ((hop : ℕ) × (hop_name : N) × (get_router_name_by_mapping_no names hop ≡ some hop_name)
            × (entry
                ≡ some (record {
                  destination = dest;
                  nexthop_list =
                      record {
                        uri = (get_adjacent no_uri adjacencies hop_name).face_uri;
                        route_cost = dr.distance x;
                        is_hyperbolic = false;
                      }
                      ∷ [];
                }))
            × Via m source hop x (dr.distance x))
  unfolding route_to add_next_hop set_insert
  routes_lem no_uri names source x dest adjacencies m rt numbered size hs named ne empty =
      elim (get_next_hop_lem m source (omega arith) x (omega (arith, below)) ne) [
        | inl (no_hop, far) ↦ inl (
          ground (
            arith,
            cleared-entry no_uri names source adjacencies dr numbered x dest rt named empty,
            no_hop,
            size,
          ),
          far,
        )
        | inr (hop, found, walk) ↦
            let (hop_name, hop_named) =
              (lookups_lem names dest hop numbered).2 (omega (arith, Via-hop m source walk)) in
            inr (
              hop,
              hop_name,
              hop_named,
              ground (
                arith,
                cleared-entry no_uri names source adjacencies dr numbered x dest rt named empty,
                found,
                hop_named,
                named,
                size,
              ),
              walk,
            )
      ]
    where
      below : x < length names
      below = (lookups_lem names dest x numbered).1 ((lookups_lem names dest x numbered).0.1 named)

      dr : DijkstraResult D
      dr = calculate_dijkstra_path m source

  -- With one face per prefix, the calculation from the adjacency LSAs gives each other router that
  -- the LSAs name either no entry, and then its distance is INF_DISTANCE, or one next hop: the
  -- face of the first router of a walk, in the matrix of corrected costs, whose cost is the hop's
  -- cost and the router's distance. The table was cleared before, this router and the other one
  -- are named by the LSAs, and they differ.
  pub single_path-routes :
      (no_uri : F) (router_prefix : N) (adjacencies : List (Adjacent N F D))
      (lsas : List (Lsa N F D)) (rt : RoutingTable N F D) (source x : ℕ) (dest : N)
      → let names = create_from_adj_lsdb lsas [] in
        get_mapping_no_by_router_name names router_prefix ≡ some source
        → get_mapping_no_by_router_name names dest ≡ some x
        → dest ≢ router_prefix
        → rt.r_table ≡ []
        → let m = make_adj_matrix lsas names in
          let dist = (calculate_dijkstra_path m source).distance x in
          let entry =
            entry_to
              (calculate_link_state_routing_path no_uri 1 router_prefix adjacencies lsas names rt)
              dest in
          ((entry ≡ none) × (dist ≡ d.inf_distance))
          ⊎ ((hop : ℕ) × (hop_name : N) × (get_router_name_by_mapping_no names hop ≡ some hop_name)
              × (entry
                  ≡ some (record {
                    destination = dest;
                    nexthop_list =
                        record {
                          uri = (get_adjacent no_uri adjacencies hop_name).face_uri;
                          route_cost = dist;
                          is_hyperbolic = false;
                        }
                        ∷ [];
                  }))
              × Via m source hop x dist)
  unfolding calculate_link_state_routing_path
  single_path-routes no_uri router_prefix adjacencies lsas rt source x dest at_source at_x ne
        empty =
      rw (at_source, calculate_link_state_routing_path)
        (routes_lem no_uri names source x dest adjacencies m rt numbered size hs
          ((lookups_lem names dest x numbered).0.0 at_x) not_source empty)
    where
      names : List (N × ℕ)
      names = create_from_adj_lsdb lsas []

      numbered : Numbered 0 names
      numbered = create_from_adj_lsdb-Numbered lsas [] tt

      m : AdjMatrix D
      m = make_adj_matrix lsas names

      size : m.size ≡ length names
      size = make_adj_matrix-size lsas names

      hs : source < length names
      hs = (lookups_lem names router_prefix source numbered).1 at_source

      not_source : x ≢ source
      not_source e = ne (
          cc (
            (lookups_lem names router_prefix source numbered).0.0 at_source,
            (lookups_lem names dest x numbered).0.0 at_x,
          ))
