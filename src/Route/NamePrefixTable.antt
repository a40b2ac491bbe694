-- ===== src/Route/NamePrefixTable.antt =====
-- route/name-prefix-table.hpp and .cpp, route/name-prefix-table-entry.cpp and
-- route/routing-table-pool-entry.hpp: which routers advertise a name prefix, on the ground of
-- which LSAs, and the next hops that go to the FIB. The prefix entries share the routing entries
-- by pointers into the pool; a pointer is the destination of its pool entry, which leaves the
-- pool when the last prefix entry lets go of it. A routing entry's pointers back to the prefix
-- entries are their names. The pool and the sources are unordered maps, lists here, so their
-- order is any. The routing table that is asked for a new pool entry is an argument.
pub mod Sources
pub mod Operations
use nlsr.Prelude.{
  Eq, ◌==◌, is_in, Ord, Double, length, find_if, erase_if, modify_if, ltb, if◌then◌else◌, ℕ, ◌+◌,
  ◌-◌, Bool, true, false, not, ◌&&◌, ◌||◌, Option, none, some, List, [], ◌∷◌, ◌++◌,
}
use nlsr.Adjacency.{Adjacent}
use nlsr.Lsa.{LsaType, adjacency_lsa, coordinate_lsa, name_lsa, base_lsa}
use nlsr.Route.NextHop.{hop_lt, NextHop}
use nlsr.Route.NexthopList.{add_all}
use nlsr.Route.Fib.{remove, update, Fib}
use nlsr.Route.RoutingTable.{RoutingTableEntry}

pub record PoolEntry (N F D : Type 0) : Type 0 where
  pub destination : N
  pub nexthop_list : List (NextHop F D)
  pub use_count : ℕ
  pub name_prefix_table_entries : List N

pub record PrefixEntry (N F D : Type 0) : Type 0 where
  pub name_prefix : N
  pub rte_list : List N
  pub nexthop_list : List (NextHop F D)

-- The bits of a SourceMask.
pub record SourceMask : Type 0 where
  pub by_name : Bool
  pub by_adjacency : Bool
  pub by_coordinate : Bool
  pub by_other : Bool

pub record SourceEntry (N : Type 0) : Type 0 where
  pub prefix : N
  pub dest_router : N
  pub mask : SourceMask

pub record NamePrefixTable (N F D : Type 0) : Type 0 where
  pub own_router_name : N
  pub prefix_sources : List (SourceEntry N)
  pub rtpool : List (PoolEntry N F D)
  pub table : List (PrefixEntry N F D)
  pub fib : Fib N F D

abbrev pub no_source : SourceMask
no_source = record {
  by_name = false;
  by_adjacency = false;
  by_coordinate = false;
  by_other = false;
}

-- `mask | toMask(getSourceForLsaType(type))` and `mask & ~toMask(...)`: the base type stands for
-- OTHER_LSA.
unfoldable pub set_source : LsaType → Bool → SourceMask → SourceMask
set_source name_lsa b m = record m { by_name = b }
set_source adjacency_lsa b m = record m { by_adjacency = b }
set_source coordinate_lsa b m = record m { by_coordinate = b }
set_source base_lsa b m = record m { by_other = b }

abbrev pub is_empty : SourceMask → Bool
is_empty m = not (m.by_name || (m.by_adjacency || (m.by_coordinate || m.by_other)))

module _ {N : Type 0} ⦃n : Eq N⦄ where
  abbrev pub has_route_key : N → N → SourceEntry N → Bool
  has_route_key name dest e = e.prefix == name && e.dest_router == dest

  abbrev pub source_entry : N → N → SourceMask → SourceEntry N
  source_entry name dest m = record { prefix = name; dest_router = dest; mask = m }

  -- The map and the result.
  unfoldable pub add_source : N → N → LsaType → List (SourceEntry N) → List (SourceEntry N) × Bool
  unfolding set_source
  add_source name dest type sources = elim (find_if (has_route_key name dest) sources) [
    | none ↦ (sources ++ source_entry name dest (set_source type true no_source) ∷ [], true)
    | some e ↦ (
      modify_if (has_route_key name dest)
          (λ _. source_entry name dest (set_source type true e.mask)) sources,
      is_empty e.mask,
    )
  ]

  unfoldable pub remove_source :
      N → N → LsaType → List (SourceEntry N) → List (SourceEntry N) × Bool
  unfolding set_source
  remove_source name dest type sources = elim (find_if (has_route_key name dest) sources) [
    | none ↦ (sources, false)
    | some e ↦
        let mask = set_source type false e.mask in
        if is_empty mask
        then (erase_if (has_route_key name dest) sources, true)
        else (modify_if (has_route_key name dest) (λ _. source_entry name dest mask) sources, false)
  ]

module _ {N F D : Type 0} ⦃n : Eq N⦄ where
  abbrev pub has_prefix : N → PrefixEntry N F D → Bool
  has_prefix name e = e.name_prefix == name

  abbrev pub goes_to : N → PoolEntry N F D → Bool
  goes_to dest p = p.destination == dest

  -- The use count goes up where the prefix entry did not have the routing entry.
  abbrev pub add_routing_table_entry : N → PrefixEntry N F D → PrefixEntry N F D × Bool
  add_routing_table_entry dest e =
      if is_in dest e.rte_list
      then (e, false)
      else (record e { rte_list = e.rte_list ++ dest ∷ [] }, true)

  abbrev pub remove_routing_table_entry : N → PrefixEntry N F D → PrefixEntry N F D × Bool
  remove_routing_table_entry dest e =
      if is_in dest e.rte_list
      then (record e { rte_list = erase_if (λ x. x == dest) e.rte_list }, true)
      else (e, false)

  -- The prefix entry's side of a pool entry that it takes up, and that it lets go of.
  abbrev pub used : Bool → N → PoolEntry N F D → PoolEntry N F D
  used new name p = record p {
    use_count = if new then p.use_count + 1 else p.use_count;
    name_prefix_table_entries =
        if is_in name p.name_prefix_table_entries
        then p.name_prefix_table_entries
        else p.name_prefix_table_entries ++ name ∷ [];
  }

  abbrev pub released : Bool → N → PoolEntry N F D → PoolEntry N F D
  released found name p =
      if found
      then record p {
        use_count = p.use_count - 1;
        name_prefix_table_entries = erase_if (λ x. x == name) p.name_prefix_table_entries;
      }
      else p

  abbrev pub hops_of : List (PoolEntry N F D) → N → List (NextHop F D)
  hops_of pool dest = elim (find_if (goes_to dest) pool) [ none ↦ [] | some p ↦ p.nexthop_list ]

module _ {N F D : Type 0} ⦃n : Eq N⦄ ⦃no : Ord N⦄ ⦃f : Eq F⦄ ⦃o : Ord F⦄ ⦃d : Double D⦄ where
  abbrev pub collect : List (PoolEntry N F D) → List N → List (NextHop F D) → List (NextHop F D)
  unfolding add_all
  collect pool [] acc = acc
  collect pool (dest ∷ rtes) acc = collect pool rtes (add_all hop_lt (hops_of pool dest) acc)

  unfoldable pub generate_nhl_from_rte_list :
      List (PoolEntry N F D) → PrefixEntry N F D → PrefixEntry N F D
  unfolding collect
  generate_nhl_from_rte_list pool e = record e { nexthop_list = collect pool e.rte_list [] }

  -- The FIB's part of an entry's change.
  unfoldable pub announce : List (Adjacent N F D) → Fib N F D → PrefixEntry N F D → Fib N F D
  unfolding update remove
  announce adj fib e =
      if ltb 0 (length e.nexthop_list)
      then update fib adj e.name_prefix e.nexthop_list
      else remove fib adj e.name_prefix

  abbrev pub new_pool_entry : Option (RoutingTableEntry N F D) → N → PoolEntry N F D
  new_pool_entry route dest = record {
    destination = dest;
    nexthop_list = elim route [ none ↦ [] | some r ↦ r.nexthop_list ];
    use_count = 0;
    name_prefix_table_entries = [];
  }

  abbrev pub new_prefix_entry : N → PrefixEntry N F D
  new_prefix_entry name = record { name_prefix = name; rte_list = []; nexthop_list = [] }
