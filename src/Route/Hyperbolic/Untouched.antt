-- ===== src/Route/Hyperbolic/Untouched.antt =====
-- route/routing-calculator-hyperbolic.cpp: what the calculation leaves alone.
use nlsr.Route.Hyperbolic.{Trigonometry, add_hyperbolic_hop, calculate_path}
use nlsr.Lsdb.{Lsdb}
use nlsr.Route.RoutingTable.{
  RoutingTableEntry, RoutingTable, has_destination, add_hop, fresh_entry, add_to_table,
  add_next_hop_to_table, add_next_hop_to_dry_table,
}
use nlsr.Adjacency.{Adjacent}
use nlsr.Route.NameMap.Bijection.{Numbered}
use nlsr.Route.NextHop.{NextHop}
use nlsr.Route.Hyperbolic.Tables.{Result, calculate_path-kept}
use nlsr.Prelude.{
  Eq, ◌==◌, ==_iff, Ord, Double, find_if, modify_if, if◌then◌else◌, ℕ, ◌≡◌, refl, ◌∙◌, Bool, true,
  false, List, [], ◌∷◌, ◌++◌, arith,
}

module _ {N F D : Type 0} ⦃n : Eq N⦄ ⦃f : Eq F⦄ ⦃o : Ord F⦄ ⦃d : Double D⦄ where
  find-modify_other :
      (k dest : N) (nh : NextHop F D) (table : List (RoutingTableEntry N F D))
      → (dest == k) ≡ false
      → find_if (has_destination k) (modify_if (has_destination dest) (add_hop nh) table)
        ≡ find_if (has_destination k) table
  find-modify_other k dest nh [] h = refl
  find-modify_other k dest nh (e ∷ table) h =
      ground (arith, find-modify_other k dest nh table h, ==_iff e.destination dest, ==_iff dest k)

  find-append_other :
      (k : N) (e : RoutingTableEntry N F D) (table : List (RoutingTableEntry N F D))
      → (e.destination == k) ≡ false
      → find_if (has_destination k) (table ++ e ∷ []) ≡ find_if (has_destination k) table
  find-append_other k e [] h = ground arith
  find-append_other k e (x ∷ table) h = ground (arith, find-append_other k e table h)

  find-add_to_table_other :
      (k dest : N) (nh : NextHop F D) (table : List (RoutingTableEntry N F D))
      → (dest == k) ≡ false
      → find_if (has_destination k) (add_to_table dest nh table) ≡ find_if (has_destination k) table
  unfolding add_to_table
  find-add_to_table_other k dest nh table h = ground (
    arith,
    find-modify_other k dest nh table h,
    find-append_other k (add_hop nh (fresh_entry dest)) table h,
  )

  -- The entries for one router, and the whole table that the run is not about.
  pub record LeavesAlone (dry : Bool) (router : N) (rt after : RoutingTable N F D) : Type 0 where
    pub own :
        find_if (has_destination router) after.r_table ≡ find_if (has_destination router) rt.r_table
    pub own_dry :
        find_if (has_destination router) after.dry_table
        ≡ find_if (has_destination router) rt.dry_table
    pub other_table :
        (if dry then after.r_table else after.dry_table)
        ≡ (if dry then rt.r_table else rt.dry_table)

module _ {N F D : Type 0} ⦃n : Eq N⦄ ⦃f : Eq F⦄ ⦃o : Ord F⦄ ⦃d : Double D⦄
    (m : Trigonometry D) where
  add_hyperbolic_hop-LeavesAlone :
      (is_dry_run : Bool) (router : N) (start : RoutingTable N F D) (dest : N) (uri : F) (cost : D)
      (rt : RoutingTable N F D)
      → (dest == router) ≡ false
      → LeavesAlone is_dry_run router start rt
      → LeavesAlone is_dry_run router start (add_hyperbolic_hop m is_dry_run dest uri cost rt)
  unfolding add_hyperbolic_hop add_next_hop_to_table add_next_hop_to_dry_table
  add_hyperbolic_hop-LeavesAlone true router start dest uri cost rt h u =
      let hop : NextHop F D = record { uri = uri; route_cost = cost; is_hyperbolic = true } in
      record {
        own = u.own;
        own_dry = find-add_to_table_other router dest hop rt.dry_table h ∙ u.own_dry;
        other_table = u.other_table;
      }
  add_hyperbolic_hop-LeavesAlone false router start dest uri cost rt h u =
      let hop : NextHop F D = record { uri = uri; route_cost = cost; is_hyperbolic = true } in
      record {
        own = find-add_to_table_other router dest hop rt.r_table h ∙ u.own;
        own_dry = u.own_dry;
        other_table = u.other_table;
      }

  -- With a name map that is numbered from zero on, a calculation that has a result changes no
  -- entry for this router, and a dry run changes nothing in the table of routes, any other run
  -- nothing in the dry table.
  pub calculate_path-LeavesAlone :
      (is_dry_run : Bool) (db : Lsdb N F D) (names : List (N × ℕ)) (this_router_name : N)
      (adjacencies : List (Adjacent N F D)) (rt : RoutingTable N F D)
      → Numbered 0 names
      → Result
          (LeavesAlone is_dry_run this_router_name rt)
          (calculate_path m is_dry_run db names this_router_name adjacencies rt)
  calculate_path-LeavesAlone is_dry_run db names this_router_name adjacencies rt v =
      calculate_path-kept m is_dry_run (LeavesAlone is_dry_run this_router_name rt) this_router_name
        (add_hyperbolic_hop-LeavesAlone is_dry_run this_router_name rt) db names adjacencies rt v
        (record { own = refl; own_dry = refl; other_table = refl })
