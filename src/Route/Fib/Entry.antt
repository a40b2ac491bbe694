-- ===== src/Route/Fib/Entry.antt =====
-- The next hops that one FIB entry holds after an update.
use nlsr.Prelude.{Eq, Ord, Double, take, if◌then◌else◌, is_some, ◌≡◌, none, List, [], arith}
use nlsr.Adjacency.{Adjacent}
use nlsr.Route.NextHop.{hop_uri_lt, hop_uri_lt-SplitsUris, NextHop}
use nlsr.Route.NexthopList.{add_all}
use nlsr.Route.NexthopList.Lookup.{
  lookup, UniqueUris, offered, lookup-add_all, UniqueUris-take, IsUriSorted, IsUriSorted-unique,
  IsUriSorted-add_all, IsUriSorted-remove_all, lookup-remove_difference,
}
use nlsr.Route.Fib.{
  new_entry, add_next_hops_to_fib_entry_and_nfd, update_entry, hops_to_add, FibEntry, Fib,
  get_number_of_faces_for_name,
}

module _ {N F D : Type 0} ⦃n : Eq N⦄ ⦃no : Ord N⦄ ⦃f : Eq F⦄ ⦃o : Ord F⦄ ⦃d : Double D⦄ where
  -- Each face of the new hops is kept at the cheaper of its old and new hop; the others go.
  pub lookup-update_entry :
      (fib : Fib N F D) (adj : List (Adjacent N F D)) (entry : FibEntry N F D)
      (hops : List (NextHop F D)) (u : F)
      → IsUriSorted entry.nexthop_set
      → IsUriSorted hops
      → lookup u (update_entry fib adj entry hops).0.nexthop_set ≡ (
          if is_some (lookup u hops)
          then offered (lookup u hops) (lookup u entry.nexthop_set)
          else none)
  unfolding update_entry add_next_hops_to_fib_entry_and_nfd
  lookup-update_entry fib adj entry hops u s k = ground (
    arith,
    lookup-remove_difference u (add_all hop_uri_lt hops entry.nexthop_set) hops
        (IsUriSorted-add_all hops entry.nexthop_set s) k,
    lookup-add_all hop_uri_lt hop_uri_lt-SplitsUris u hops entry.nexthop_set
        (IsUriSorted-unique hops k) (IsUriSorted-unique entry.nexthop_set s),
  )

  pub update_entry-IsUriSorted :
      (fib : Fib N F D) (adj : List (Adjacent N F D)) (entry : FibEntry N F D)
      (hops : List (NextHop F D))
      → IsUriSorted entry.nexthop_set
      → IsUriSorted (update_entry fib adj entry hops).0.nexthop_set
  unfolding update_entry add_next_hops_to_fib_entry_and_nfd
  update_entry-IsUriSorted fib adj entry hops s =
      IsUriSorted-remove_all _ (add_all hop_uri_lt hops entry.nexthop_set)
        (IsUriSorted-add_all hops entry.nexthop_set s)

  pub hops_to_add-IsUriSorted :
      (fib : Fib N F D) (all : List (NextHop F D)) → IsUriSorted (hops_to_add fib all)
  unfolding hops_to_add
  hops_to_add-IsUriSorted fib all =
      IsUriSorted-add_all (take (get_number_of_faces_for_name fib all) all) [] tt

  -- The hops to add are the first ones of the list, as many as faces are allowed.
  pub lookup-hops_to_add :
      (fib : Fib N F D) (all : List (NextHop F D)) (u : F)
      → UniqueUris all
      → lookup u (hops_to_add fib all) ≡ lookup u (take (get_number_of_faces_for_name fib all) all)
  unfolding hops_to_add
  lookup-hops_to_add fib all u q = ground (
    arith,
    lookup-add_all hop_uri_lt hop_uri_lt-SplitsUris u
        (take (get_number_of_faces_for_name fib all) all) []
        (UniqueUris-take (get_number_of_faces_for_name fib all) all q) tt,
  )

  pub lookup-new_entry :
      (fib : Fib N F D) (adj : List (Adjacent N F D)) (name : N) (hops : List (NextHop F D)) (u : F)
      → IsUriSorted hops
      → lookup u (add_next_hops_to_fib_entry_and_nfd fib adj (new_entry name) hops).0.nexthop_set
        ≡ (if is_some (lookup u hops) then offered (lookup u hops) none else none)
  unfolding add_next_hops_to_fib_entry_and_nfd new_entry
  lookup-new_entry fib adj name hops u k = ground (
    arith,
    lookup-add_all hop_uri_lt hop_uri_lt-SplitsUris u hops [] (IsUriSorted-unique hops k) tt,
  )
