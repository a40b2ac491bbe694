-- ===== src/Route/NamePrefixTable/Operations.antt =====
-- route/name-prefix-table.cpp: the operations of the table, and its reactions to a change of the
-- LSDB and to new routes.
use nlsr.Prelude.{
  Eq, ◌==◌, Ord, Double, length, find_if, erase_if, modify_if, nat_beq, if◌then◌else◌, is_some,
  Bool, none, some, List, [], ◌∷◌, ◌++◌,
}
use nlsr.Sequencing.{LsdbUpdate, installed, updated, removed}
use nlsr.Adjacency.{Adjacent}
use nlsr.Lsa.{LsaType, name_lsa, get_type, type_eq, npl, Lsa}
use nlsr.Lsa.Update.{list_equal}
use nlsr.Route.NextHop.{same_hop, NextHop}
use nlsr.Route.Fib.{remove, update}
use nlsr.Route.RoutingTable.{
  RoutingTableEntry, has_destination, find_routing_table_entry, RoutingTable,
}
use nlsr.Route.NamePrefixTable.{
  PoolEntry, PrefixEntry, add_source, remove_source, has_prefix, goes_to, add_routing_table_entry,
  remove_routing_table_entry, used, released, generate_nhl_from_rte_list, announce, new_pool_entry,
  new_prefix_entry, NamePrefixTable,
}

module _ {N F D : Type 0} ⦃n : Eq N⦄ ⦃no : Ord N⦄ ⦃f : Eq F⦄ ⦃o : Ord F⦄ ⦃d : Double D⦄
    (adj : List (Adjacent N F D)) (rt : RoutingTable N F D) where
  -- The pool with an entry for the destination.
  abbrev pub with_pool_entry : N → List (PoolEntry N F D) → List (PoolEntry N F D)
  unfolding find_routing_table_entry
  with_pool_entry dest pool =
      if is_some (find_if (goes_to dest) pool)
      then pool
      else pool ++ new_pool_entry (find_routing_table_entry rt dest) dest ∷ []

  -- The prefix entry's part of `add_entry`, on the entry that is there or a new one.
  abbrev pub extended : N → List (PoolEntry N F D) → PrefixEntry N F D → PrefixEntry N F D × Bool
  unfolding generate_nhl_from_rte_list
  extended dest pool e =
      let (grown, new) = add_routing_table_entry dest e in
      (generate_nhl_from_rte_list pool grown, new)

  unfoldable pub add_entry : N → N → NamePrefixTable N F D → NamePrefixTable N F D
  unfolding with_pool_entry extended announce
  add_entry name dest npt =
      let pool = with_pool_entry dest npt.rtpool in
      elim (find_if (has_prefix name) npt.table) [
        | none ↦
            let (e, new) = extended dest pool (new_prefix_entry name) in
            record npt {
              rtpool = modify_if (goes_to dest) (used new name) pool;
              table = npt.table ++ e ∷ [];
              fib = announce adj npt.fib e;
            }
        | some old ↦
            let (e, new) = extended dest pool old in
            record npt {
              rtpool = modify_if (goes_to dest) (used new name) pool;
              table = modify_if (has_prefix name) (λ _. e) npt.table;
              fib = announce adj npt.fib e;
            }
      ]

  -- The pool after a prefix entry let go of a destination: an unused entry is deleted.
  abbrev pub release_pool_entry : Bool → N → N → List (PoolEntry N F D) → List (PoolEntry N F D)
  release_pool_entry found name dest pool =
      let pool = modify_if (goes_to dest) (released found name) pool in
      elim (find_if (goes_to dest) pool) [
        | none ↦ pool
        | some p ↦ if nat_beq p.use_count 0 then erase_if (goes_to dest) pool else pool
      ]

  -- `remove_entry` for a pool entry and a prefix entry that are there.
  abbrev pub shrink : N → N → PrefixEntry N F D → NamePrefixTable N F D → NamePrefixTable N F D
  unfolding generate_nhl_from_rte_list update remove
  shrink name dest old npt =
      let (rest, found) = remove_routing_table_entry dest old in
      let pool = release_pool_entry found name dest npt.rtpool in
      let e = generate_nhl_from_rte_list pool rest in
      if nat_beq (length rest.rte_list) 0
      then record npt {
        rtpool = pool;
        table = erase_if (has_prefix name) npt.table;
        fib = remove npt.fib adj name;
      }
      else record npt {
        rtpool = pool;
        table = modify_if (has_prefix name) (λ _. e) npt.table;
        fib = update npt.fib adj name e.nexthop_list;
      }

  unfoldable pub remove_entry : N → N → NamePrefixTable N F D → NamePrefixTable N F D
  unfolding shrink
  remove_entry name dest npt = elim (find_if (goes_to dest) npt.rtpool) [
    | none ↦ npt
    | some p ↦ elim (find_if (has_prefix name) npt.table) [
      | none ↦ npt
      | some old ↦ shrink name dest old npt
    ]
  ]

  unfoldable pub add_entry_with_source :
      N → N → LsaType → NamePrefixTable N F D → NamePrefixTable N F D
  unfolding add_entry add_source
  add_entry_with_source name dest type npt =
      let (sources, first) = add_source name dest type npt.prefix_sources in
      let npt = record npt { prefix_sources = sources } in
      if first then add_entry name dest npt else npt

  unfoldable pub remove_entry_with_source :
      N → N → LsaType → NamePrefixTable N F D → NamePrefixTable N F D
  unfolding remove_entry remove_source
  remove_entry_with_source name dest type npt =
      let (sources, last) = remove_source name dest type npt.prefix_sources in
      let npt = record npt { prefix_sources = sources } in
      if last then remove_entry name dest npt else npt

  -- The loops over the names of a name LSA; this router's own name is passed over.
  abbrev pub add_names : N → List N → NamePrefixTable N F D → NamePrefixTable N F D
  unfolding add_entry_with_source
  add_names origin [] npt = npt
  add_names origin (name ∷ rest) npt =
      add_names origin rest (
        if name == npt.own_router_name then npt else add_entry_with_source name origin name_lsa npt)

  abbrev pub remove_names : N → List N → NamePrefixTable N F D → NamePrefixTable N F D
  unfolding remove_entry_with_source
  remove_names origin [] npt = npt
  remove_names origin (name ∷ rest) npt = remove_names origin rest (
      if name == npt.own_router_name
      then npt
      else remove_entry_with_source name origin name_lsa npt)

  -- The reaction to an LSA of another router, by the kind of the change.
  abbrev pub on_foreign_lsa :
      Lsa N F D → LsdbUpdate → List N → List N → NamePrefixTable N F D → NamePrefixTable N F D
  unfolding add_names remove_names add_entry_with_source remove_entry_with_source
  on_foreign_lsa l installed to_add to_remove npt =
      add_names l.origin_router (npl l.body)
        (add_entry_with_source l.origin_router l.origin_router (get_type l) npt)
  on_foreign_lsa l updated to_add to_remove npt =
      if type_eq (get_type l) name_lsa
      then remove_names l.origin_router to_remove (add_names l.origin_router to_add npt)
      else npt
  on_foreign_lsa l removed to_add to_remove npt =
      remove_names l.origin_router (npl l.body)
        (remove_entry_with_source l.origin_router l.origin_router (get_type l) npt)

  unfoldable pub update_from_lsdb :
      Lsa N F D → LsdbUpdate → List N → List N → NamePrefixTable N F D → NamePrefixTable N F D
  unfolding on_foreign_lsa
  update_from_lsdb l kind to_add to_remove npt =
      if npt.own_router_name == l.origin_router
      then npt
      else on_foreign_lsa l kind to_add to_remove npt

  abbrev pub add_entries : List N → N → NamePrefixTable N F D → NamePrefixTable N F D
  unfolding add_entry
  add_entries [] dest npt = npt
  add_entries (name ∷ rest) dest npt = add_entries rest dest (add_entry name dest npt)

  abbrev pub set_hops : N → List (NextHop F D) → NamePrefixTable N F D → NamePrefixTable N F D
  set_hops dest hops npt = record npt {
    rtpool = modify_if (goes_to dest) (λ p. record p { nexthop_list = hops }) npt.rtpool;
  }

  -- One round of the loop of `update_with_new_route`.
  abbrev pub refresh_pool_entry :
      List (RoutingTableEntry N F D)
      → PoolEntry N F D
      → NamePrefixTable N F D
      → NamePrefixTable N F D
  unfolding add_entries same_hop
  refresh_pool_entry entries p npt = elim (find_if (has_destination p.destination) entries) [
    | none ↦ add_entries p.name_prefix_table_entries p.destination (set_hops p.destination [] npt)
    | some e ↦
        if list_equal same_hop p.nexthop_list e.nexthop_list
        then npt
        else add_entries p.name_prefix_table_entries p.destination
            (set_hops p.destination e.nexthop_list npt)
  ]

  abbrev pub refresh_pool :
      List (RoutingTableEntry N F D)
      → List (PoolEntry N F D)
      → NamePrefixTable N F D
      → NamePrefixTable N F D
  unfolding refresh_pool_entry
  refresh_pool entries [] npt = npt
  refresh_pool entries (p ∷ ps) npt = refresh_pool entries ps (refresh_pool_entry entries p npt)

  unfoldable pub update_with_new_route :
      List (RoutingTableEntry N F D) → NamePrefixTable N F D → NamePrefixTable N F D
  unfolding refresh_pool
  update_with_new_route entries npt = refresh_pool entries npt.rtpool npt
