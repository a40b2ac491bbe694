-- ===== src/Route/NexthopList.antt =====
-- route/nexthop-list.hpp: NexthopListT, a std::set of next hops kept in the order of its
-- comparator, as the list of its elements in that order.
pub mod Lookup
use nlsr.Prelude.{
  Eq, ◌==◌, Double, cost_lt, find_if, erase_if, if◌then◌else◌, Bool, none, some, List, [], ◌∷◌,
}
use nlsr.Prelude.Sets.{set_insert}
use nlsr.Route.NextHop.{NextHop, same_hop}

module _ {F D : Type 0} ⦃f : Eq F⦄ ⦃d : Double D⦄ where
  abbrev pub has_uri : F → NextHop F D → Bool
  has_uri u nh = nh.uri == u

  unfoldable pub add_next_hop :
      (NextHop F D → NextHop F D → Bool) → NextHop F D → List (NextHop F D) → List (NextHop F D)
  unfolding set_insert
  add_next_hop lt nh hops = elim (find_if (has_uri nh.uri) hops) [
    | none ↦ set_insert lt nh hops
    | some item ↦
        if cost_lt nh.route_cost item.route_cost
        then set_insert lt nh (erase_if (has_uri nh.uri) hops)
        else hops
  ]

  unfoldable pub remove_next_hop : NextHop F D → List (NextHop F D) → List (NextHop F D)
  remove_next_hop nh hops = erase_if (λ item. same_hop item nh) hops

  -- The loops that offer each hop of a list to a set, or take it out.
  unfoldable pub add_all :
      (NextHop F D → NextHop F D → Bool)
      → List (NextHop F D)
      → List (NextHop F D)
      → List (NextHop F D)
  add_all lt [] set = set
  add_all lt (hop ∷ hops) set = add_all lt hops (add_next_hop lt hop set)

  unfoldable pub remove_all : List (NextHop F D) → List (NextHop F D) → List (NextHop F D)
  remove_all [] set = set
  remove_all (hop ∷ hops) set = remove_all hops (remove_next_hop hop set)
