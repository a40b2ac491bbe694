-- ===== src/Route/RoutingTable.antt =====
-- route/routing-table.hpp and route/routing-table.cpp: the routing tables, when they are
-- calculated, and the reaction to changes of the LSDB. The wire encoding is left out. What the
-- calculation reads (the LSDB, the neighbours) and the subscribers of afterRoutingChange are
-- functions on the table; a subscriber may call back, as calculateNow does. `announced` is the
-- log of the routes given to afterRoutingChange, oldest first.
pub mod Entries
pub mod Schedule
use nlsr.Prelude.{
  Eq, ◌==◌, Ord, Double, find_if, modify_if, if◌then◌else◌, is_some, ℕ, zero, suc, Bool, true,
  false, not, ◌&&◌, ◌||◌, Option, none, some, List, [], ◌∷◌, ◌++◌,
}
use nlsr.Route.NextHop.{hop_lt, NextHop}
use nlsr.Route.NexthopList.{add_next_hop}
use nlsr.Sequencing.{
  HyperbolicState, hyperbolic_off, hyperbolic_on, hyperbolic_dry_run, is_off, LsdbUpdate, installed,
  updated, removed, is_on,
}
use nlsr.Lsa.{adjacency_lsa, coordinate_lsa, type_eq, LsaType}

pub record RoutingTableEntry (N F D : Type 0) : Type 0 where
  pub destination : N
  pub nexthop_list : List (NextHop F D)

pub record RoutingTable (N F D : Type 0) : Type 0 where
  pub r_table : List (RoutingTableEntry N F D)
  pub dry_table : List (RoutingTableEntry N F D)
  pub hyperbolic_state : HyperbolicState
  pub is_calculating : Bool
  pub is_calculation_scheduled : Bool
  -- A timer that will call `calculate` is pending.
  pub scheduled_calculation : Bool
  pub is_immediate_calculation_pending : Bool
  pub own_adj_lsa_exist : Bool
  pub change_from_calculation : Bool
  pub announced : List (List (RoutingTableEntry N F D))

module _ {N F D : Type 0} ⦃n : Eq N⦄ ⦃f : Eq F⦄ ⦃o : Ord F⦄ ⦃d : Double D⦄ where
  abbrev pub has_destination : N → RoutingTableEntry N F D → Bool
  has_destination dest e = e.destination == dest

  abbrev pub add_hop : NextHop F D → RoutingTableEntry N F D → RoutingTableEntry N F D
  add_hop nh e = record e { nexthop_list = add_next_hop hop_lt nh e.nexthop_list }

  abbrev pub fresh_entry : N → RoutingTableEntry N F D
  fresh_entry dest = record { destination = dest; nexthop_list = [] }

  -- What addNextHop and addNextHopToDryTable do to their table.
  unfoldable pub add_to_table :
      N → NextHop F D → List (RoutingTableEntry N F D) → List (RoutingTableEntry N F D)
  add_to_table dest nh table =
      if is_some (find_if (has_destination dest) table)
      then modify_if (has_destination dest) (add_hop nh) table
      else table ++ add_hop nh (fresh_entry dest) ∷ []

  unfoldable pub find_routing_table_entry :
      RoutingTable N F D → N → Option (RoutingTableEntry N F D)
  find_routing_table_entry rt dest = find_if (has_destination dest) rt.r_table

  unfoldable pub add_next_hop_to_table : RoutingTable N F D → N → NextHop F D → RoutingTable N F D
  unfolding add_to_table
  add_next_hop_to_table rt dest nh = record rt { r_table = add_to_table dest nh rt.r_table }

  unfoldable pub add_next_hop_to_dry_table :
      RoutingTable N F D → N → NextHop F D → RoutingTable N F D
  unfolding add_to_table
  add_next_hop_to_dry_table rt dest nh = record rt { dry_table = add_to_table dest nh rt.dry_table }

module _ {N F D : Type 0} where
  unfoldable pub clear_routing_table : RoutingTable N F D → RoutingTable N F D
  clear_routing_table rt = record rt { r_table = [] }

  unfoldable pub clear_dry_routing_table : RoutingTable N F D → RoutingTable N F D
  clear_dry_routing_table rt = record rt { dry_table = [] }

  unfoldable pub schedule_routing_table_calculation : RoutingTable N F D → RoutingTable N F D
  schedule_routing_table_calculation rt =
      if rt.is_calculation_scheduled
      then rt
      else record rt { scheduled_calculation = true; is_calculation_scheduled = true }

  unfoldable pub consume_after_routing_change_from_calculation :
      RoutingTable N F D → Bool × RoutingTable N F D
  consume_after_routing_change_from_calculation rt =
      (rt.change_from_calculation, record rt { change_from_calculation = false })

  -- Whether a new LSA of the type changes the routes in this state.
  unfoldable pub schedule_for : LsaType → RoutingTable N F D → RoutingTable N F D
  unfolding schedule_routing_table_calculation
  schedule_for type rt =
      if (type_eq type adjacency_lsa && not (is_on rt.hyperbolic_state))
        || (type_eq type coordinate_lsa && not (is_off rt.hyperbolic_state))
      then schedule_routing_table_calculation rt
      else rt

-- `link_state` and `hyperbolic` put the routes of the LSDB into the (cleared) tables, `subscribers`
-- is what afterRoutingChange runs, and `adj_build_scheduled` is getIsBuildAdjLsaScheduled().
module _ {N F D : Type 0} (link_state : RoutingTable N F D → RoutingTable N F D)
    (hyperbolic : Bool → RoutingTable N F D → RoutingTable N F D)
    (subscribers : RoutingTable N F D → RoutingTable N F D) (adj_build_scheduled : Bool) where
  -- afterRoutingChange(m_rTable)
  unfoldable pub after_routing_change : RoutingTable N F D → RoutingTable N F D
  after_routing_change rt = subscribers (record rt { announced = rt.announced ++ rt.r_table ∷ [] })

  unfoldable pub calculate_ls_routing_table : RoutingTable N F D → RoutingTable N F D
  unfolding after_routing_change clear_routing_table
  calculate_ls_routing_table rt =
      if adj_build_scheduled
      then rt
      else if not rt.own_adj_lsa_exist
      then rt
      else after_routing_change
          (record (link_state (clear_routing_table rt)) { change_from_calculation = true })

  unfoldable pub calculate_hyp_routing_table : Bool → RoutingTable N F D → RoutingTable N F D
  unfolding after_routing_change clear_routing_table clear_dry_routing_table
  calculate_hyp_routing_table true rt = hyperbolic true (clear_dry_routing_table rt)
  calculate_hyp_routing_table false rt =
      after_routing_change
        (record (hyperbolic false (clear_routing_table rt)) { change_from_calculation = true })

  unfoldable pub calculate_by_state : HyperbolicState → RoutingTable N F D → RoutingTable N F D
  unfolding calculate_ls_routing_table calculate_hyp_routing_table
  calculate_by_state hyperbolic_off rt = calculate_ls_routing_table rt
  calculate_by_state hyperbolic_dry_run rt =
      calculate_hyp_routing_table true (calculate_ls_routing_table rt)
  calculate_by_state hyperbolic_on rt = calculate_hyp_routing_table false rt

  -- One pass of `calculate`, up to the test for a request that came while it ran.
  unfoldable pub calculate_once : RoutingTable N F D → RoutingTable N F D
  unfolding calculate_by_state
  calculate_once rt =
      record (calculate_by_state rt.hyperbolic_state (record rt { is_calculating = true })) {
        is_calculation_scheduled = false;
        is_calculating = false;
      }

  -- The fuel bounds the passes that requests from the subscribers prompt; `none` is running out.
  unfoldable pub calculate : ℕ → RoutingTable N F D → Option (RoutingTable N F D)
  unfolding calculate_once schedule_routing_table_calculation
  calculate zero rt = none
  calculate (suc fuel) rt =
      let once = calculate_once rt in
      let again = calculate fuel (record once { is_immediate_calculation_pending = false }) in
      if rt.is_calculating
      then some (schedule_routing_table_calculation rt)
      else if once.is_immediate_calculation_pending
      then again
      else some once

  unfoldable pub calculate_now : ℕ → RoutingTable N F D → Option (RoutingTable N F D)
  unfolding calculate
  calculate_now fuel rt =
      if rt.is_calculating
      then some (record rt { is_immediate_calculation_pending = true })
      else if not (is_on rt.hyperbolic_state) && adj_build_scheduled
      then some rt
      else if rt.is_calculation_scheduled
      then calculate fuel
          (record rt { scheduled_calculation = false; is_calculation_scheduled = false })
      else calculate fuel rt

  -- The slot that is connected to onLsdbModified; `own` tells an LSA of this router.
  unfoldable pub after_lsdb_modified :
      RoutingTable N F D → LsaType → Bool → LsdbUpdate → RoutingTable N F D
  unfolding clear_routing_table clear_dry_routing_table after_routing_change
      schedule_routing_table_calculation
  after_lsdb_modified rt type own removed =
      if own && type_eq type adjacency_lsa
      then record (after_routing_change (record (clear_dry_routing_table (clear_routing_table rt)) {
        change_from_calculation = false;
      })) { own_adj_lsa_exist = false }
      else rt
  after_lsdb_modified rt type own installed =
      schedule_for type
        (if own && type_eq type adjacency_lsa then record rt { own_adj_lsa_exist = true } else rt)
  after_lsdb_modified rt type own updated = schedule_for type rt
