-- ===== src/Route/RoutingTable/Entries.antt =====
-- Entries.
use nlsr.Prelude.{
  Eq, ◌==◌, ==_iff, Ord, Double, find_if, modify_if, if◌then◌else◌, Option-cases, ◌≡◌, refl, inl,
  inr, Option, none, some, List, [], ◌∷◌, ◌++◌, arith,
}
use nlsr.Route.NextHop.{hop_lt, NextHop}
use nlsr.Route.RoutingTable.{fresh_entry, RoutingTableEntry, has_destination, add_hop, add_to_table}
use nlsr.Route.NexthopList.{add_next_hop}

module _ {N F D : Type 0} ⦃n : Eq N⦄ ⦃f : Eq F⦄ ⦃o : Ord F⦄ ⦃d : Double D⦄ where
  abbrev pub hops_to : Option (RoutingTableEntry N F D) → List (NextHop F D)
  hops_to none = []
  hops_to (some e) = e.nexthop_list

  pub destination-found :
      (dest : N) (table : List (RoutingTableEntry N F D)) (e : RoutingTableEntry N F D)
      → find_if (has_destination dest) table ≡ some e
      → e.destination ≡ dest
  destination-found dest [] e h = cc
  destination-found dest (x ∷ table) e h =
      ground (arith, destination-found dest table e, ==_iff x.destination dest)

  modified :
      (dest k : N) (nh : NextHop F D) (table : List (RoutingTableEntry N F D))
      → find_if (has_destination k) (modify_if (has_destination dest) (add_hop nh) table) ≡ (
          if dest == k
          then elim (find_if (has_destination k) table) [
            | none ↦ none
            | some e ↦ some (add_hop nh e)
          ]
          else find_if (has_destination k) table)
  modified dest k nh [] = ground arith
  modified dest k nh (e ∷ table) = ground (
    arith,
    modified dest k nh table,
    ==_iff e.destination dest,
    ==_iff dest k,
    ==_iff e.destination k,
  )

  appended :
      (k : N) (e : RoutingTableEntry N F D) (table : List (RoutingTableEntry N F D))
      → find_if (has_destination k) (table ++ e ∷ []) ≡ elim (find_if (has_destination k) table) [
        | none ↦ if e.destination == k then some e else none
        | some x ↦ some x
      ]
  appended k e [] = refl
  appended k e (x ∷ table) = ground (arith, appended k e table)

  -- Adding a next hop to a table gives the destination an entry with the hop added to its list,
  -- and leaves the entries of the other destinations.
  pub add_to_table_lem :
      (dest k : N) (nh : NextHop F D) (table : List (RoutingTableEntry N F D))
      → find_if (has_destination k) (add_to_table dest nh table) ≡ (
          if dest == k
          then some (record {
            destination = dest;
            nexthop_list = add_next_hop hop_lt nh (hops_to (find_if (has_destination dest) table));
          })
          else find_if (has_destination k) table)
  unfolding add_to_table
  add_to_table_lem dest k nh table = elim (Option-cases (find_if (has_destination dest) table)) [
    | inl missing ↦
        ground (arith, missing, appended k (add_hop nh (fresh_entry dest)) table, ==_iff dest k)
    | inr (e, found) ↦ ground (
      arith,
      found,
      modified dest k nh table,
      destination-found dest table e found,
      ==_iff dest k,
    )
  ]
